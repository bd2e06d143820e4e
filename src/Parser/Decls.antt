-- ===== src/Parser/Decls.antt =====
-- crates/parser/src/lib.rs: data types, enums, globals and extern functions.
use maka.Base.{
  ℕ, zero, suc, Bool, true, false, ◌&&◌, List, [], ◌∷◌, ◌++◌, Option, none, some, if◌then◌else◌,
}
use maka.Base.Int.{ℤ}
use maka.Ast.Exprs.{Expr, Block}
use maka.Ast.Items.{FieldDecl, DataDecl, VariantDecl, EnumDecl, ExternDecl, GlobalDecl}
use maka.Ast.Types.{TypeExpr, Param}
use maka.Lexer.Token.{
  Span, mut_kw, extern_kw, gate_kw, data_kw, enum_kw, embed_kw, lparen, rparen, lbrace, rbrace,
  comma, semicolon, dot_dot, eq,
}
use maka.Parser.Bounds.{
  until_rbrace, comma_until_rbrace, list_behind, parse_type_params_with_bounds, parse_type_params,
  parse_where_clauses,
}
use maka.Parser.Fueled.{fueled}
use maka.Parser.Funcs.{param}
use maka.Parser.Patterns.{int_of}
use maka.Parser.State.{
  P, ◌>>=◌, ◌>>◌, pure, fail, no_fuel, message, peek, peek_at, peek_span, bump, at, eat, expect,
  expect_ident,
}
use maka.Parser.Types.{parse_mutness}
use maka.Parser.Items.{is_dot, optional_text, or_else}

module _ (typ : P TypeExpr) (expr : P Expr) (block : P Block) where
  unfoldable pub parse_global : Bool → P GlobalDecl
  parse_global is_mut = do
    span ← peek_span
    _ ← (if is_mut then (expect mut_kw "`mut`" >> pure true) else pure true)
    ty ← typ
    name ← expect_ident "global name"
    expect eq "`=`"
    init ← expr
    expect semicolon "`;`"
    pure (record {
      name = name.0;
      ty = ty;
      init = init;
      is_mut = is_mut;
      is_pub = false;
      span = span;
    })

  -- The value behind a `=`.
  unfoldable pub default_value : P (Option Expr)
  default_value = do found ← eat eq; if found then (do e ← expr; pure (some e)) else pure none

  -- From the mutability of a field on.
  unfoldable pub field_rest : Bool → Span → P FieldDecl
  unfolding default_value
  field_rest is_embed start = do
    m ← parse_mutness
    ty ← typ
    name ← expect_ident "field name"
    val ← default_value
    pure (record {
      mutness = m;
      ty = ty;
      name = name.0;
      default_value = val;
      is_embed = is_embed;
      span = start;
    })

  unfoldable pub parse_field : P FieldDecl
  unfolding field_rest
  parse_field = do
    start ← peek_span
    is_embed ← eat embed_kw
    field ← field_rest is_embed start
    expect semicolon "`;`"
    pure field

  unfoldable pub parse_data : P DataDecl
  unfolding parse_field until_rbrace
  parse_data = do
    kw ← expect data_kw "`data`"
    name ← expect_ident "struct name"
    type_params ← parse_type_params_with_bounds typ false
    clauses ← parse_where_clauses typ
    expect lbrace "`{`"
    fields ← fueled (until_rbrace parse_field)
    expect rbrace "`}`"
    pure (record {
      name = name.0;
      type_params = type_params.names;
      fields = fields;
      where_clauses = clauses ++ type_params.bounds;
      is_pub = false;
      is_foreign = false;
      span = kw.span;
    })

  -- The payload of a variant, behind `{`.
  unfoldable pub variant_fields : P (List FieldDecl)
  unfolding field_rest comma_until_rbrace
  variant_fields = do
    fields ← fueled (comma_until_rbrace (peek_span >>= field_rest false))
    expect rbrace "`}` to close variant fields"
    pure fields

  unfoldable pub variant_value : P ℤ
  variant_value = do
    kind ← peek
    elim (int_of kind) as (λ _. P ℤ) [
      | none ↦ (do span ← peek_span; fail (message "expected integer") span)
      | some n ↦ (bump >> pure n)
    ]

  unfoldable pub enum_variant : P VariantDecl
  unfolding variant_fields variant_value
  enum_variant = do
    start ← peek_span
    name ← expect_ident "variant name"
    valued ← eat eq
    if valued
        then (do
          n ← variant_value
          pure (record { name = name.0; fields = []; explicit_value = some n; span = start }))
        else (do
          fields ← list_behind lbrace variant_fields
          pure (record { name = name.0; fields = fields; explicit_value = none; span = start }))

  unfoldable pub parse_enum : P EnumDecl
  unfolding enum_variant comma_until_rbrace
  parse_enum = do
    kw ← expect enum_kw "`enum`"
    name ← expect_ident "enum name"
    type_params ← parse_type_params typ
    expect lbrace "`{`"
    variants ← fueled (comma_until_rbrace enum_variant)
    expect rbrace "`}`"
    pure (record {
      name = name.0;
      type_params = type_params;
      variants = variants;
      is_pub = false;
      span = kw.span;
    })

  -- The parameters, and `is_variadic`.
  unfoldable pub extern_params : ℕ → P (List Param × Bool)
  extern_params zero = no_fuel
  extern_params (suc f) = do
    dots ← at dot_dot
    next ← peek_at 1
    if dots && is_dot next then (do bump; bump; pure ([], true)) else (do
      p ← param typ
      again ← eat comma
      if again
          then (do others ← extern_params f; pure (p ∷ others.0, others.1))
          else pure (p ∷ [], false))

  unfoldable pub parse_extern : P ExternDecl
  unfolding extern_params optional_text
  parse_extern = do
    kw ← expect extern_kw "`extern`"
    is_gate ← eat gate_kw
    c_name ← optional_text
    ret ← typ
    name ← expect_ident "extern function name"
    expect lparen "`(`"
    closed ← at rparen
    params ← (if closed then pure ([], false) else fueled extern_params)
    expect rparen "`)`"
    expect semicolon "`;`"
    pure (record {
      name = name.0;
      c_name = or_else c_name (name.0);
      params = params.0;
      ret = ret;
      is_gate = is_gate;
      is_variadic = params.1;
      is_pub = false;
      span = kw.span;
    })
