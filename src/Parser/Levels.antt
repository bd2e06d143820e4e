-- ===== src/Parser/Levels.antt =====
-- crates/parser/src/lib.rs: the levels of the binary operators.
use maka.Base.{
  get_elem?, sym, ap, ◌∙◌, ℕ, zero, suc, ◌+◌, ◌*◌, ◌≤◌, ◌<◌, ◌≡◌, ◌≢◌, refl, Option, none, some,
  Option-cases, inl, inr, arith,
}
use maka.Ast.Exprs.{Expr, bin, expr_span}
use maka.Ast.Types.{
  BinOp, add, sub, mul, div, mod_op, eq, ne, lt, le, gt, ge, and, or, bit_and, bit_or, bit_xor, shl,
  shr,
}
use maka.Lexer.Token.{
  TokKind, eof, plus, minus, star, slash, percent, amp, pipe, caret, shl_op, shr_op, and_and, or_or,
  eq_eq, not_eq, lt as lt_tok, gt as gt_tok, lt_eq, gt_eq, mut_kw, const_kw,
}
use maka.Parser.Fueled.{fueled, Post-fueled, Eats}
use maka.Parser.Post.{Post, Post-bind, Post-bump, Post-done, Post-peek, Post-tail}
use maka.Parser.Progress.{Ends, Step_refl, weight}
use maka.Parser.State.{
  State, rest_of, P, ◌>>=◌, ◌>>◌, pure, no_fuel, peek, peek_at, bump, kind_or_eof,
}

-- The operator that a kind is at a level, with the kind behind it.
abbrev pub Ops : Type 0
Ops = TokKind → TokKind → Option BinOp

unfoldable pub or_op : Ops
or_op or_or _ = some or
or_op _ _ = none

unfoldable pub and_op : Ops
and_op and_and _ = some and
and_op _ _ = none

unfoldable pub eq_op : Ops
eq_op eq_eq _ = some eq
eq_op not_eq _ = some ne
eq_op _ _ = none

unfoldable pub bitor_op : Ops
bitor_op pipe _ = some bit_or
bitor_op _ _ = none

unfoldable pub bitxor_op : Ops
bitxor_op caret _ = some bit_xor
bitxor_op _ _ = none

-- `!self.peek_at_unary_after_amp()`.
abbrev pub not_reference : TokKind → Option BinOp
not_reference mut_kw = none
not_reference const_kw = none
not_reference _ = some bit_and

unfoldable pub bitand_op : Ops
bitand_op amp following = not_reference following
bitand_op _ _ = none

unfoldable pub rel_op : Ops
rel_op lt_tok _ = some lt
rel_op gt_tok _ = some gt
rel_op lt_eq _ = some le
rel_op gt_eq _ = some ge
rel_op _ _ = none

unfoldable pub shift_op : Ops
shift_op shl_op _ = some shl
shift_op shr_op _ = some shr
shift_op _ _ = none

unfoldable pub add_op : Ops
add_op plus _ = some add
add_op minus _ = some sub
add_op _ _ = none

unfoldable pub mul_op : Ops
mul_op star _ = some mul
mul_op slash _ = some div
mul_op percent _ = some mod_op
mul_op _ _ = none

-- The loop of a level, whose operands are of the level `next`.
unfoldable pub bin_loop : Ops → P Expr → Expr → ℕ → P Expr
bin_loop ops next lhs zero = no_fuel
bin_loop ops next lhs (suc f) = do
  kind ← peek
  following ← peek_at 1
  elim (ops kind following) as (λ _. P Expr) [
    | none ↦ pure lhs
    | some op ↦ (do bump; rhs ← next; bin_loop ops next (bin op lhs rhs (expr_span lhs)) f)
  ]

unfoldable pub binary : Ops → P Expr → P Expr
unfolding bin_loop
binary ops next = do lhs ← next; fueled (bin_loop ops next lhs)

none-ne-some : {A : Type 0} {a : A} → none ≢ some a
none-ne-some e = cc

bin_loop-Post :
    (ops : Ops) (next : P Expr) (lhs : Expr) (f : ℕ) (n : ℕ) (t : State)
    → ((k : TokKind) → ops eof k ≡ none)
    → Eats n 1 next
    → Ends (rest_of t)
    → weight (rest_of t) < n
    → 10 * weight (rest_of t) + 1 ≤ f
    → Post t 0 (bin_loop ops next lhs f t)
unfolding bin_loop peek_at
bin_loop-Post ops next lhs zero n t he hn h ls hf = absurd (omega (arith, hf))
bin_loop-Post ops next lhs (suc f) n t he hn h ls hf = Post-peek t (Step_refl t h) (λ kind u su ke.
    let next_kind : TokKind = kind_or_eof (get_elem? (rest_of u) 1) in
    elim (Option-cases (ops kind next_kind)) [
      | inl e ↦ rw e (Post-done su (omega arith))
      | inr (op, e) ↦ rw e (
          Post-bump su
            (λ k.
              absurd
                (none-ne-some (sym (he next_kind) ∙ ap (λ q. ops q next_kind) (sym k ∙ ke) ∙ e)))
            (λ a v sv. Post-bind sv (hn v (sv.ends) (omega (arith, ls, sv.weigh))) (λ rhs w sw.
              Post-tail sw
                (bin_loop-Post ops next (bin op lhs rhs (expr_span lhs)) f n w he hn (sw.ends)
                  (omega (arith, ls, sw.weigh)) (omega (arith, hf, sw.weigh)))
                (omega arith))))
    ])

pub binary-Eats :
    (ops : Ops) (next : P Expr) (n : ℕ)
    → ((k : TokKind) → ops eof k ≡ none)
    → Eats n 1 next
    → Eats n 1 (binary ops next)
unfolding binary
binary-Eats ops next n he hn t h ls = Post-bind (Step_refl t h) (hn t h ls) (λ lhs u su.
    Post-tail su
      (Post-fueled (bin_loop ops next lhs) u (λ f lf.
        bin_loop-Post ops next lhs f n u he hn (su.ends) (omega (arith, ls, su.weigh))
          (omega (arith, lf))))
      (omega arith))

pub or_op-eof : (k : TokKind) → or_op eof k ≡ none
unfolding or_op
or_op-eof k = refl

pub and_op-eof : (k : TokKind) → and_op eof k ≡ none
unfolding and_op
and_op-eof k = refl

pub eq_op-eof : (k : TokKind) → eq_op eof k ≡ none
unfolding eq_op
eq_op-eof k = refl

pub bitor_op-eof : (k : TokKind) → bitor_op eof k ≡ none
unfolding bitor_op
bitor_op-eof k = refl

pub bitxor_op-eof : (k : TokKind) → bitxor_op eof k ≡ none
unfolding bitxor_op
bitxor_op-eof k = refl

pub bitand_op-eof : (k : TokKind) → bitand_op eof k ≡ none
unfolding bitand_op
bitand_op-eof k = refl

pub rel_op-eof : (k : TokKind) → rel_op eof k ≡ none
unfolding rel_op
rel_op-eof k = refl

pub shift_op-eof : (k : TokKind) → shift_op eof k ≡ none
unfolding shift_op
shift_op-eof k = refl

pub add_op-eof : (k : TokKind) → add_op eof k ≡ none
unfolding add_op
add_op-eof k = refl

pub mul_op-eof : (k : TokKind) → mul_op eof k ≡ none
unfolding mul_op
mul_op-eof k = refl
