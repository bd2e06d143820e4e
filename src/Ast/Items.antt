-- ===== src/Ast/Items.antt =====
-- crates/ast/src/lib.rs: top-level declarations, and a module.
use maka.Base.{Bool, List, Option, Bytes}
use maka.Base.Int.{ℤ}
use maka.Ast.Exprs.{Expr, Block}
use maka.Ast.Types.{Mutness, TypeExpr, Param, WhereClause, AssocTypeDecl, AssocTypeDef}
use maka.Lexer.Token.{Span}

pub record FuncDecl : Type 0 where
  pub name : Bytes
  pub type_params : List Bytes
  pub params : List Param
  pub ret : TypeExpr
  pub body : Block
  pub is_inline : Bool
  pub is_gate : Bool
  pub is_pub : Bool
  pub is_export : Bool
  pub where_clauses : List WhereClause
  pub span : Span

pub record FieldDecl : Type 0 where
  pub mutness : Mutness
  pub ty : TypeExpr
  pub name : Bytes
  pub default_value : Option Expr
  pub is_embed : Bool
  pub span : Span

pub record DataDecl : Type 0 where
  pub name : Bytes
  pub type_params : List Bytes
  pub fields : List FieldDecl
  pub where_clauses : List WhereClause
  pub is_pub : Bool
  pub is_foreign : Bool
  pub span : Span

pub record VariantDecl : Type 0 where
  pub name : Bytes
  pub fields : List FieldDecl
  pub explicit_value : Option ℤ
  pub span : Span

pub record EnumDecl : Type 0 where
  pub name : Bytes
  pub type_params : List Bytes
  pub variants : List VariantDecl
  pub is_pub : Bool
  pub span : Span

pub record ExternDecl : Type 0 where
  pub name : Bytes
  pub c_name : Bytes
  pub params : List Param
  pub ret : TypeExpr
  pub is_gate : Bool
  pub is_variadic : Bool
  pub is_pub : Bool
  pub span : Span

pub record GlobalDecl : Type 0 where
  pub name : Bytes
  pub ty : TypeExpr
  pub init : Expr
  pub is_mut : Bool
  pub is_pub : Bool
  pub span : Span

pub record ConstexprDecl : Type 0 where
  pub name : Bytes
  pub value : ℤ
  pub is_pub : Bool
  pub span : Span

pub record AttrDecl : Type 0 where
  pub name : Bytes
  pub type_params : List Bytes
  pub type_param_defaults : List (Option TypeExpr)
  pub supertraits : List Bytes
  pub funcs : List FuncDecl
  pub assoc_types : List AssocTypeDecl
  pub is_pub : Bool
  pub span : Span

pub record HasDecl : Type 0 where
  pub type_name : Bytes
  pub receiver : TypeExpr
  pub attr_name : Bytes
  pub attr_args : List TypeExpr
  pub funcs : List FuncDecl
  pub assoc_type_defs : List AssocTypeDef
  pub is_pub : Bool
  pub span : Span

pub data Item : Type 0 where
  func : FuncDecl → Item
  data_item : DataDecl → Item
  enum : EnumDecl → Item
  extern : ExternDecl → Item
  attr : AttrDecl → Item
  has : HasDecl → Item
  c_include c_block c_link : Bytes → Span → Item
  constexpr : ConstexprDecl → Item
  global : GlobalDecl → Item
  rblock : Bytes → Span → Item
  rdep : Bytes → Bytes → Span → Item

pub record HasImport : Type 0 where
  pub module_path : List Bytes
  pub type_name : Bytes
  pub attr_name : Bytes
  pub span : Span

pub record ImportDecl : Type 0 where
  pub path : List Bytes
  pub names : List Bytes

pub record Module : Type 0 where
  pub items : List Item
  pub module_path : Option (List Bytes)
  pub item_modules : List (List Bytes)
  pub item_imports : List (List (List Bytes × Bytes))
  pub imports : List ImportDecl
  pub has_imports : List HasImport
  pub item_has_imports : List (List HasImport)
