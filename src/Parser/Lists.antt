-- ===== src/Parser/Lists.antt =====
-- crates/parser/src/lib.rs: the arguments of a call and the fields of a literal.
use maka.Base.{ℕ, zero, suc, Bool, true, false, List, [], ◌∷◌, Option, Bytes, if◌then◌else◌}
use maka.Ast.Exprs.{Expr, Exprs, no_exprs, exprs, FieldInits, no_inits, inits, struct}
use maka.Ast.Types.{TypeExpr}
use maka.Lexer.Token.{Span, TokKind, ident, rparen, lbrace, rbrace, comma, eq}
use maka.Parser.Fueled.{fueled}
use maka.Parser.State.{P, ◌>>=◌, ◌>>◌, pure, no_fuel, peek, peek_at, at, eat, expect, expect_ident}

-- `is_struct_lit_context`, on the kinds from here on.
unfoldable pub struct_lit_context : TokKind → TokKind → TokKind → Bool
struct_lit_context lbrace rbrace _ = true
struct_lit_context lbrace (ident _) eq = true
struct_lit_context _ _ _ = false

unfoldable pub is_struct_lit_context : P Bool
unfolding struct_lit_context
is_struct_lit_context = do
  here ← peek
  first ← peek_at 1
  second ← peek_at 2
  if struct_lit_context here first second then pure true else pure false

-- Types with a comma between two of them, as a `Vec`.
unfoldable pub type_args : P TypeExpr → ℕ → P (List TypeExpr)
type_args typ zero = no_fuel
type_args typ (suc f) = do
  t ← typ
  again ← eat comma
  if again then (do ts ← type_args typ f; pure (t ∷ ts)) else pure (t ∷ [])

module _ (expr : P Expr) where
  -- Expressions with a comma between two of them.
  unfoldable pub expr_list : ℕ → P Exprs
  expr_list zero = no_fuel
  expr_list (suc f) = do
    e ← expr
    again ← eat comma
    if again then (do es ← expr_list f; pure (exprs e es)) else pure (exprs e no_exprs)

  -- The arguments and the `)` behind them.
  unfoldable pub call_args : P Exprs
  unfolding expr_list
  call_args = do
    closed ← at rparen
    if closed
        then (expect rparen "`)`" >> pure no_exprs)
        else (do args ← fueled expr_list; expect rparen "`)`"; pure args)

  -- Fields with a comma between two of them, and maybe one behind the last.
  unfoldable pub init_list : ℕ → P FieldInits
  init_list zero = no_fuel
  init_list (suc f) = do
    name ← expect_ident "field name"
    expect eq "`=`"
    val ← expr
    again ← eat comma
    if again
        then (do
          closed ← at rbrace
          if closed
              then pure (inits (name.0) val no_inits)
              else (do others ← init_list f; pure (inits (name.0) val others)))
        else pure (inits (name.0) val no_inits)

  -- `{`, the fields and `}`.
  unfoldable pub struct_fields : P FieldInits
  unfolding init_list
  struct_fields = do
    expect lbrace "`{`"
    closed ← at rbrace
    if closed
        then (expect rbrace "`}`" >> pure no_inits)
        else (do fields ← fueled init_list; expect rbrace "`}`"; pure fields)

  unfoldable pub parse_struct_lit : Option Bytes → Span → P Expr
  unfolding struct_fields
  parse_struct_lit ty span = do fields ← struct_fields; pure (struct ty fields span)
