-- ===== src/Parser/Operators.antt =====
-- crates/parser/src/lib.rs: at which tokens the loops of the operators go on, and at which they stop.
use maka.Base.{
  ℕ, zero, suc, ◌<◌, ◌≡◌, ◌≢◌, refl, true, false, List, [], ◌∷◌, none, some, get_elem?, arith,
}
use maka.Ast.Exprs.{Expr}
use maka.Ast.Types.{TypeExpr, BinOp, or, bit_and}
use maka.Lexer.Token.{
  Token, TokKind, lparen, star, slash, percent, plus, minus, shl_op, shr_op, lt as lt_tok,
  gt as gt_tok, lt_eq, gt_eq, amp, caret, pipe, eq_eq, not_eq, and_and, or_or, dot, lbracket,
  colon_colon, bang, as_kw, has_kw, eof,
}
use maka.Parser.Formula.{level, sign, rank}
use maka.Parser.Kind.{same_kind, discriminant}
use maka.Parser.Levels.{
  Ops, not_reference, or_op, and_op, eq_op, bitor_op, bitxor_op, bitand_op, rel_op, shift_op,
  add_op, mul_op,
}
use maka.Parser.Opening.{
  Opening, plain, behind_paren, two_parens, an_int, a_true, a_false, a_minus, a_bang, a_tilde,
}
use maka.Parser.Postfix.{postfix_on}
use maka.Parser.State.{P, State, parsed, kind_or_eof}

-- The operators of a level, by its number.
abbrev pub ops_in : ℕ → List Ops → Ops
ops_in n [] = or_op
ops_in zero (ops ∷ others) = ops
ops_in (suc n) (ops ∷ others) = ops_in n others

abbrev pub ops_at : ℕ → Ops
ops_at n =
    ops_in n
      (mul_op ∷ add_op ∷ shift_op ∷ rel_op ∷ bitand_op ∷ bitxor_op ∷ bitor_op ∷ eq_op ∷ and_op ∷ [])

pub ops_at-sign :
    (o : BinOp) (k : TokKind)
    → not_reference k ≡ some bit_and
    → ops_at (level o) (sign o) k ≡ some o
unfolding level sign or_op and_op eq_op bitor_op bitxor_op bitand_op rel_op shift_op add_op mul_op
ops_at-sign bit_and k h = h
ops_at-sign _ k h = refl

pub rank-sign : (o : BinOp) → rank (sign o) ≡ suc (level o)
unfolding rank sign level
rank-sign or = refl
rank-sign _ = refl

pub sign-goes_on : (o : BinOp) → same_kind (sign o) eof ≡ false
unfolding sign discriminant
sign-goes_on or = refl
sign-goes_on _ = refl

pub opening-follows :
    {ts : List Token}
    → Opening ts
    → (t : Token) → not_reference (kind_or_eof (get_elem? (t ∷ ts) 1)) ≡ some bit_and
opening-follows (plain an_int) t = refl
opening-follows (plain a_true) t = refl
opening-follows (plain a_false) t = refl
opening-follows (plain a_minus) t = refl
opening-follows (plain a_bang) t = refl
opening-follows (plain a_tilde) t = refl
opening-follows (behind_paren p) t = refl
opening-follows two_parens t = refl

pub mul-stops : (k m : TokKind) → rank k ≢ 1 → mul_op k m ≡ none
unfolding mul_op rank
mul-stops star m h = absurd (h refl)
mul-stops slash m h = absurd (h refl)
mul-stops percent m h = absurd (h refl)
mul-stops _ m h = refl

pub add-stops : (k m : TokKind) → rank k ≢ 2 → add_op k m ≡ none
unfolding add_op rank
add-stops plus m h = absurd (h refl)
add-stops minus m h = absurd (h refl)
add-stops _ m h = refl

pub shift-stops : (k m : TokKind) → rank k ≢ 3 → shift_op k m ≡ none
unfolding shift_op rank
shift-stops shl_op m h = absurd (h refl)
shift-stops shr_op m h = absurd (h refl)
shift-stops _ m h = refl

pub rel-stops : (k m : TokKind) → rank k ≢ 4 → rel_op k m ≡ none
unfolding rel_op rank
rel-stops lt_tok m h = absurd (h refl)
rel-stops gt_tok m h = absurd (h refl)
rel-stops lt_eq m h = absurd (h refl)
rel-stops gt_eq m h = absurd (h refl)
rel-stops _ m h = refl

pub bitand-stops : (k m : TokKind) → rank k ≢ 5 → bitand_op k m ≡ none
unfolding bitand_op rank
bitand-stops amp m h = absurd (h refl)
bitand-stops _ m h = refl

pub bitxor-stops : (k m : TokKind) → rank k ≢ 6 → bitxor_op k m ≡ none
unfolding bitxor_op rank
bitxor-stops caret m h = absurd (h refl)
bitxor-stops _ m h = refl

pub bitor-stops : (k m : TokKind) → rank k ≢ 7 → bitor_op k m ≡ none
unfolding bitor_op rank
bitor-stops pipe m h = absurd (h refl)
bitor-stops _ m h = refl

pub eq-stops : (k m : TokKind) → rank k ≢ 8 → eq_op k m ≡ none
unfolding eq_op rank
eq-stops eq_eq m h = absurd (h refl)
eq-stops not_eq m h = absurd (h refl)
eq-stops _ m h = refl

pub and-stops : (k m : TokKind) → rank k ≢ 9 → and_op k m ≡ none
unfolding and_op rank
and-stops and_and m h = absurd (h refl)
and-stops _ m h = refl

pub or-stops : (k m : TokKind) → rank k ≢ 10 → or_op k m ≡ none
unfolding or_op rank
or-stops or_or m h = absurd (h refl)
or-stops _ m h = refl

pub has-stops : (k : TokKind) → 0 < rank k → same_kind k has_kw ≡ false
unfolding rank discriminant
has-stops has_kw h = absurd (omega (arith, h))
has-stops _ h = refl

pub postfix_on-stops :
    (typ : P TypeExpr) (expr : P Expr) (e : Expr) (k : TokKind) (again : Expr → P Expr) (s : State)
    → 0 < rank k
    → postfix_on typ expr true e k again s ≡ parsed e s
unfolding rank postfix_on
postfix_on-stops typ expr e dot again s h = absurd (omega (arith, h))
postfix_on-stops typ expr e lbracket again s h = absurd (omega (arith, h))
postfix_on-stops typ expr e lparen again s h = absurd (omega (arith, h))
postfix_on-stops typ expr e colon_colon again s h = absurd (omega (arith, h))
postfix_on-stops typ expr e bang again s h = absurd (omega (arith, h))
postfix_on-stops typ expr e as_kw again s h = absurd (omega (arith, h))
postfix_on-stops typ expr e _ again s h = refl
