-- ===== src/Parser/Unary.antt =====
-- crates/parser/src/lib.rs: the unary operators and `has`.
use maka.Base.{
  ℕ, zero, suc, Bool, true, false, not, ◌&&◌, none, some, Bytes, bytes_eq, codes, if◌then◌else◌,
}
use maka.Ast.Exprs.{Expr, un, ref, cast, heap_alloc, free, wall_mod, has_pred, lhs_ty, lhs_val}
use maka.Ast.Types.{TypeExpr, default, mut, neg, not as not_op, bit_not, transfer, share}
use maka.Lexer.Token.{
  Span, TokKind, ident, alloc_kw, free_kw, transfer_kw, share_kw, mut_kw, as_kw, has_kw, minus,
  bang, tilde, amp, semicolon, dot, lbracket, lparen, colon_colon, comma, rparen, rbrace, rbracket,
  colon,
}
use maka.Parser.Fueled.{fueled}
use maka.Parser.State.{
  P, ◌>>=◌, ◌>>◌, pure, no_fuel, attempt, peek, peek_at, peek_span, bump, at, eat, expect_ident,
  position, rewind,
}

-- `T has Trait`, or an expression of the level `next`, with `has Trait` behind it or not.
module _ (typ : P TypeExpr) (next : P Expr) where
  unfoldable pub value_has : ℕ → Span → P Expr
  value_has save start = do
    rewind save
    lhs ← next
    found ← at has_kw
    if found
        then (do
          bump
          name ← expect_ident "trait name after `has`"
          pure (has_pred (lhs_val lhs) (name.0) start))
        else pure lhs

  unfoldable pub parse_has_pred : P Expr
  unfolding value_has
  parse_has_pred = do
    start ← peek_span
    save ← position
    ty ← attempt typ
    elim ty as (λ _. P Expr) [
      | none ↦ value_has save start
      | some t ↦ (do
        found ← at has_kw
        if found
            then (do
              bump
              name ← expect_ident "trait name after `has`"
              pure (has_pred (lhs_ty t) (name.0) start))
            else value_has save start)
    ]

-- The kinds behind `deep` with which it is a variable. Behind the last token is `None`; that last token
-- is `Eof`, which no `deep` is.
abbrev pub ends_operand : TokKind → Bool
ends_operand semicolon = true
ends_operand dot = true
ends_operand lbracket = true
ends_operand lparen = true
ends_operand as_kw = true
ends_operand colon_colon = true
ends_operand comma = true
ends_operand rparen = true
ends_operand rbrace = true
ends_operand rbracket = true
ends_operand colon = true
ends_operand _ = false

abbrev pub named : Bytes → TokKind → Bool
named text (ident name) = bytes_eq name text
named text _ = false

module _ (typ : P TypeExpr) (postfix : Bool → P Expr) where
  -- The casts behind a reference.
  unfoldable pub cast_loop : Expr → ℕ → P Expr
  cast_loop e zero = no_fuel
  cast_loop e (suc f) = do
    found ← at as_kw
    if found then (do span ← peek_span; bump; ty ← typ; cast_loop (cast e ty span) f) else pure e

  unfoldable pub reference : Span → P Expr
  unfolding cast_loop
  reference start = do
    is_mut ← eat mut_kw
    if is_mut
        then (do e ← postfix false; fueled (cast_loop (ref mut e start)))
        else (do e ← postfix false; fueled (cast_loop (ref default e start)))

  -- `match self.peek() { … }`; `unary` is `parse_unary`.
  unfoldable pub unary_on : P Expr → TokKind → Span → P Expr
  unfolding reference bytes_eq
  unary_on unary alloc_kw start = do bump; v ← unary; pure (heap_alloc v start)
  unary_on unary free_kw start = do
    bump
    first ← peek
    second ← peek_at 1
    if named (codes "deep") first && not (ends_operand second)
        then (do bump; v ← unary; pure (free v true start))
        else (do v ← unary; pure (free v false start))
  unary_on unary transfer_kw start = do bump; e ← unary; pure (wall_mod transfer e start)
  unary_on unary share_kw start = do bump; e ← unary; pure (wall_mod share e start)
  unary_on unary minus start = do bump; e ← unary; pure (un neg e start)
  unary_on unary bang start = do bump; e ← unary; pure (un not_op e start)
  unary_on unary tilde start = do bump; e ← unary; pure (un bit_not e start)
  unary_on unary amp start = bump >> reference start
  unary_on unary _ start = postfix true

  unfoldable pub unary_rec : ℕ → P Expr
  unfolding unary_on
  unary_rec zero = no_fuel
  unary_rec (suc f) = do start ← peek_span; kind ← peek; unary_on (unary_rec f) kind start

  unfoldable pub parse_unary : P Expr
  unfolding unary_rec
  parse_unary = fueled unary_rec
