-- ===== src/Ast/Types.antt =====
-- crates/ast/src/lib.rs: type expressions, literals, operators and parameters. A `String` is the
-- list of its bytes, a `Box` is its content.
use maka.Base.{ℕ, Bool, List, Option, Bytes}
use maka.Base.Int.{ℤ}
use maka.Lexer.Token.{Span}

pub data Mutness : Type 0 where
  default const mut : Mutness

-- The source's `Type`; `TypeExprs` is `Vec<Type>`.
mutual
  pub data TypeExpr : Type 0 where
    named : Bytes → Span → TypeExpr
    assoc_path : TypeExpr → Bytes → Span → TypeExpr
    ref ptr raw_ptr own_ptr : Mutness → TypeExpr → Span → TypeExpr
    heap : TypeExpr → Span → TypeExpr
    array : ℤ → TypeExpr → Span → TypeExpr
    slice : Mutness → TypeExpr → Span → TypeExpr
    vec : TypeExpr → Span → TypeExpr
    unit : Span → TypeExpr
    dyn : List Bytes → Bool → Span → TypeExpr
    generic : Bytes → TypeExprs → Span → TypeExpr
    fn_ptr : TypeExpr → TypeExprs → Span → TypeExpr

  pub data TypeExprs : Type 0 where
    nil : TypeExprs
    cons : TypeExpr → TypeExprs → TypeExprs

-- `Type::span`.
unfoldable pub type_span : TypeExpr → Span
type_span (named _ s) = s
type_span (assoc_path _ _ s) = s
type_span (ref _ _ s) = s
type_span (ptr _ _ s) = s
type_span (raw_ptr _ _ s) = s
type_span (own_ptr _ _ s) = s
type_span (heap _ s) = s
type_span (array _ _ s) = s
type_span (slice _ _ s) = s
type_span (vec _ s) = s
type_span (unit s) = s
type_span (dyn _ _ s) = s
type_span (generic _ _ s) = s
type_span (fn_ptr _ _ s) = s

pub record AssocTypeDecl : Type 0 where
  pub name : Bytes
  pub default_ty : Option TypeExpr
  pub span : Span

pub record AssocTypeDef : Type 0 where
  pub name : Bytes
  pub value : TypeExpr
  pub span : Span

-- A float literal is the text that the lexer keeps.
pub data Lit : Type 0 where
  int : ℤ → Lit
  float : Bytes → Lit
  bool : Bool → Lit
  char : ℕ → Lit
  str : Bytes → Lit
  null unit : Lit

pub data BinOp : Type 0 where
  add sub mul div mod_op eq ne lt le gt ge and or bit_and bit_or bit_xor shl shr : BinOp

pub data UnOp : Type 0 where
  neg not bit_not : UnOp

pub data AssignOp : Type 0 where
  assign add_assign sub_assign mul_assign div_assign mod_assign : AssignOp

pub data WallMode : Type 0 where
  transfer share : WallMode

-- `mode` is a character: v, r or m.
pub record LambdaCapture : Type 0 where
  pub name : Bytes
  pub mode : ℕ
  pub span : Span

pub record Param : Type 0 where
  pub name : Bytes
  pub ty : TypeExpr
  pub span : Span

pub record WhereClause : Type 0 where
  pub trait_name : Bytes
  pub args : List TypeExpr
  pub assoc_type_bindings : List (Bytes × TypeExpr)
  pub span : Span

pub record PatField : Type 0 where
  pub field : Bytes
  pub binding : Option Bytes
  pub literal : Option Lit
  pub span : Span

-- `Patterns` is `Vec<Pattern>`.
mutual
  pub data Pattern : Type 0 where
    variant : Option Bytes → Bytes → Span → Pattern
    variant_destructure : Option Bytes → Bytes → List PatField → Span → Pattern
    lit : Lit → Span → Pattern
    null : Span → Pattern
    else_pattern : Span → Pattern
    ident : Bytes → Span → Pattern
    or : Patterns → Span → Pattern

  pub data Patterns : Type 0 where
    nil : Patterns
    cons : Pattern → Patterns → Patterns
