-- ===== src/Parser/Postfix.antt =====
-- crates/parser/src/lib.rs: the postfix operators.
use maka.Base.{ℕ, zero, suc, Bool, true, [], none, some, Bytes, if◌then◌else◌}
use maka.Ast.Exprs.{
  Expr, ident, unwrap, field, index, call, cast, variant_ctor, attr_call, some_expr,
}
use maka.Ast.Types.{TypeExpr}
use maka.Lexer.Token.{
  Span, TokKind, colon_colon, lparen, lbracket, rbracket, dot, bang, as_kw, lt, gt,
}
use maka.Parser.Fueled.{fueled, eat_ident}
use maka.Parser.Lists.{is_struct_lit_context, type_args, call_args, struct_fields}
use maka.Parser.State.{
  P, ◌>>=◌, ◌>>◌, pure, no_fuel, peek, peek_span, bump, at, expect, expect_ident, position, rewind,
}

-- `again` is the next round of the loop, with the expression so far.
module _ (typ : P TypeExpr) (expr : P Expr) where
  -- `.name` that no literal and no call follows.
  abbrev plain_field : Expr → Bytes → Span → (Expr → P Expr) → P Expr
  plain_field e name span again = again (field e name span)

  -- From `receiver.name` on: a `::method(args)`, or a field.
  unfoldable pub qualified_call : Expr → Bytes → Span → (Expr → P Expr) → P Expr
  unfolding call_args
  qualified_call e name span again = do
    qualified ← at colon_colon
    if qualified
        then (do
          save ← position
          bump
          method ← eat_ident
          elim method as (λ _. P Expr) [
            | none ↦ (rewind save >> plain_field e name span again)
            | some meth ↦ (do
              opened ← at lparen
              if opened
                  then (do
                    bump
                    args ← call_args expr
                    again (attr_call name meth (some_expr e) args span))
                  else (rewind save >> plain_field e name span again))
          ])
        else plain_field e name span again

  -- From `Enum.name` on: the fields of a variant, or the other forms.
  unfoldable pub variant_or_field : Bytes → Expr → Bytes → Span → (Expr → P Expr) → P Expr
  unfolding qualified_call struct_fields
  variant_or_field enum_name e name span again = do
    literal ← is_struct_lit_context
    if literal
        then (do fields ← struct_fields expr; again (variant_ctor enum_name name fields span))
        else qualified_call e name span again

  unfoldable pub behind_dot : Expr → Bytes → Span → (Expr → P Expr) → P Expr
  unfolding variant_or_field
  behind_dot (ident enum_name s) name span again =
      variant_or_field enum_name (ident enum_name s) name span again
  behind_dot e name span again = qualified_call e name span again

  -- `match self.peek() { … }` of the loop.
  unfoldable pub postfix_on : Bool → Expr → TokKind → (Expr → P Expr) → P Expr
  unfolding behind_dot type_args
  postfix_on allow_as e dot again = do
    span ← peek_span
    bump
    name ← expect_ident "field name"
    behind_dot e (name.0) span again
  postfix_on allow_as e lbracket again = do
    span ← peek_span
    bump
    idx ← expr
    expect rbracket "`]`"
    again (index e idx span)
  postfix_on allow_as e lparen again = do
    span ← peek_span
    bump
    args ← call_args expr
    again (call e args [] span)
  postfix_on allow_as e colon_colon again = do
    save ← position
    bump
    turbofish ← at lt
    if turbofish
        then (do
          bump
          targs ← fueled (type_args typ)
          expect gt "`>` to close the type arguments"
          span ← peek_span
          expect lparen "`(` - `::<...>` type arguments are only valid on a call"
          args ← call_args expr
          again (call e args targs span))
        else (rewind save >> pure e)
  postfix_on allow_as e bang again = do span ← peek_span; bump; again (unwrap e span)
  postfix_on true e as_kw again = do span ← peek_span; bump; ty ← typ; again (cast e ty span)
  postfix_on allow_as e _ again = pure e

  unfoldable pub postfix_loop : Bool → Expr → ℕ → P Expr
  unfolding postfix_on
  postfix_loop allow_as e zero = no_fuel
  postfix_loop allow_as e (suc f) = do
    kind ← peek
    postfix_on allow_as e kind (λ e'. postfix_loop allow_as e' f)

  -- `primary` is `parse_primary`.
  unfoldable pub parse_postfix_inner : P Expr → Bool → P Expr
  unfolding postfix_loop
  parse_postfix_inner primary allow_as = do e ← primary; fueled (postfix_loop allow_as e)
