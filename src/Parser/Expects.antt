-- ===== src/Parser/Expects.antt =====
-- crates/parser/src/lib.rs: the postcondition of the parser's helpers.
use Prim.Native.String.{String}
use maka.Base.{
  List, ap, ℕ, zero, suc, ◌&&◌, ◌∙◌, map, ◌+◌, ◌-◌, ◌≤◌, ◌≡◌, ◌≢◌, refl, Bool, true, false, none,
  some, Bytes, Bool-cases, inl, inr, ◌∷◌, length, if◌then◌else◌, arith, [],
}
use maka.Base.Int.{ℤ}
use maka.Ast.Items.{FuncDecl}
use maka.Ctfe.Fold.{Folded, try_fold_int}
use maka.Ctfe.Fold as Fold
use maka.Ctfe.Outcome.{Table}
use maka.Ctfe.InBounds.{
  KindsEnd, last as kinds_last, more as kinds_more, try_fold_int-ne-out_of_bounds,
}
use maka.Ctfe.Shrinks.{try_fold_int-ends}
use maka.Lexer.Token.{Span, Token, TokKind, eof, gt, shr_op, ident}
use maka.Parser.Kind.{discriminant, same_kind, same_kind-eof, same_kind-shr_op}
use maka.Parser.Progress.{last, more, Ends, Step, Step_refl, Step_trans, Step_less, Step-back}
use maka.Parser.State.{
  Build, State, state, rest_of, read_of, P, and_then, bump, eat, split_shr, expect, name_of,
  expect_ident, position, rewind, pure, fail, ◌>>◌, Message, expected, skip, folding, fold_here,
}
use maka.Parser.Post.{
  Post, Post-at, Post-bind, Post-bump, Post-done, Post-peek, Post-peek_span, Post-tail, bump_step,
  fails, kind_of, overflows, split_step, yields,
}

half-Post :
    (b c : Bool) (msg : Message) (span : Span) (w : State) {t : State}
    → Step t w 0
    → (c ≡ true → kind_of w ≡ shr_op)
    → Post t 1 ((if b && c then split_shr else fail msg span) w)
half-Post true true msg span w st h =
    let (a, u, be, su) = split_step w (st.ends) (h refl) in rw be (yields (Step_trans st su))
half-Post true false msg span w st h = fails st
half-Post false c msg span w st h = fails st

name-Post :
    (msg : Message) (kind : TokKind) (span : Span) (w : State) {t : State}
    → Step t w 0
    → kind_of w ≡ kind
    → Post t 1 (
        (elim (name_of kind) as (λ _. P (Bytes × Span)) [
          | none ↦ fail msg span
          | some name ↦ (bump >> pure (name, span))
        ])
          w)
name-Post msg (ident name) span w st h =
    Post-bump st (λ e. cc) (λ a u su. Post-done su (omega arith))
name-Post msg _ span w st h = fails st

pub eat-Post : (x : TokKind) (t : State) → Ends (rest_of t) → x ≢ eof → Post t 0 (eat x t)
unfolding eat
eat-Post x t h n =
    Post-at x t (Step_refl t h)
      (λ u st eq.
        Post-bump st (same_kind-eof (kind_of u) x eq n) (λ a v sv. Post-done sv (omega arith)))
      (λ u st. yields st)

-- A `>` may be half a `>>`.
pub expect-Post :
    (x : TokKind) (what : String) (t : State)
    → Ends (rest_of t)
    → x ≢ eof
    → Post t 1 (expect x what t)
unfolding expect
expect-Post x what t h n =
    Post-at x t (Step_refl t h)
      (λ u st eq.
        let (a, v, be, sv) = bump_step u (st.ends) (same_kind-eof (kind_of u) x eq n) in
        rw be (yields (Step_trans st sv)))
      (λ u st. Post-peek u st (λ kind v sv ke. Post-peek_span v sv (λ span w sw kw.
        half-Post (same_kind x gt) (same_kind kind shr_op) (expected what kind) span w sw
          (λ e. kw ∙ ke ∙ same_kind-shr_op kind e))))

pub expect_ident-Post :
    (what : String) (t : State) → Ends (rest_of t) → Post t 1 (expect_ident what t)
unfolding expect_ident
expect_ident-Post what t h = Post-peek t (Step_refl t h) (λ kind v sv ke.
    Post-peek_span v sv (λ span w sw kw. name-Post (expected what kind) kind span w sw (kw ∙ ke)))

module _ {κ} {B : Type κ} {s : State} {e d : ℕ} where
  pub Post-expect :
      (x : TokKind) (what : String) {t : State} {k : Token → P B}
      → Step s t d
      → x ≢ eof
      → ((a : Token) (u : State) → Step s u (d + 1) → Post s e (k a u))
      → Post s e (and_then (expect x what t) k)
  Post-expect x what {t} {k} st n j = Post-bind st (expect-Post x what t (st.ends) n) j

  pub Post-expect_ident :
      (what : String) {t : State} {k : Bytes × Span → P B}
      → Step s t d
      → ((a : Bytes × Span) (u : State) → Step s u (d + 1) → Post s e (k a u))
      → Post s e (and_then (expect_ident what t) k)
  Post-expect_ident what {t} st j = Post-bind st (expect_ident-Post what t (st.ends)) j

  -- From a position that is kept on, steps are counted from there.
  pub Post-position :
      (c : ℕ) (t : State) {k : ℕ → P B}
      → Step s t d
      → e ≤ d + c
      → ((n : ℕ) (v : State)
          → Step v v 0
          → Step s v d
          → kind_of v ≡ kind_of t
          → n ≡ length (read_of v)
          → Post v c (k n v))
      → Post s e (and_then (position t) k)
  unfolding position
  Post-position c t st le j =
      Post-tail st (j (length (read_of t)) t (Step_refl t (st.ends)) st refl refl) le

  pub Post-rewind :
      {n : ℕ} {t u : State} {c : ℕ} {k : P B}
      → Step s t d
      → Step t u c
      → n ≡ length (read_of t)
      → ((v : State) → Step s v d → Post s e (k v))
      → Post s e (and_then (rewind n u) (λ _. k))
  unfolding rewind
  Post-rewind st su h j =
      let (v, eq, sv) = Step-back su in
      rw (h, eq) (j v (Step_less (Step_trans st sv) (omega arith)))

kind_of-ne-eof : (k : TokKind) → same_kind k eof ≡ false → k ≢ eof
unfolding discriminant
kind_of-ne-eof k h e = cc (h, ap (λ q. same_kind q eof) e)

pub bump-Post : (t : State) → Ends (rest_of t) → Post t 0 (bump t)
unfolding bump
bump-Post (state read []) h = elim h [ ]
bump-Post (state read (x ∷ rest)) h = elim (Bool-cases (same_kind x.kind eof)) [
  | inl e ↦ rw e (yields (Step_refl (state read (x ∷ rest)) h))
  | inr e ↦
      let (a, u, be, su) = bump_step (state read (x ∷ rest)) h (kind_of-ne-eof x.kind e) in
      rw be (yields (Step_less su (omega arith)))
]

skip-Post : (n : ℕ) (t : State) → Ends (rest_of t) → Post t 0 (skip n t)
unfolding skip
skip-Post zero t h = yields (Step_refl t h)
skip-Post (suc n) t h =
    Post-bind (Step_refl t h) (bump-Post t h)
      (λ a u su. Post-tail su (skip-Post n u (su.ends)) (omega arith))

folding-Post :
    (n : ℕ) (r : Folded) (t : State)
    → Ends (rest_of t)
    → r ≢ Fold.out_of_fuel
    → r ≢ Fold.out_of_bounds
    → Post t 0 (folding n r t)
unfolding folding
folding-Post n (Fold.folded v ts) t h ne nb =
    Post-bind (Step_refl t h) (skip-Post (n - length ts) t h) (λ a u su. Post-done su (omega arith))
folding-Post n Fold.no_value t h ne nb = yields (Step_refl t h)
folding-Post n Fold.panicked t h ne nb = overflows
folding-Post n Fold.out_of_bounds t h ne nb = absurd (nb refl)
folding-Post n Fold.out_of_fuel t h ne nb = absurd (ne refl)

Ends-KindsEnd : {ts : List Token} → Ends ts → KindsEnd (map (λ (x : Token). x.kind) ts)
Ends-KindsEnd (last e) = kinds_last e
Ends-KindsEnd (more h) = kinds_more (Ends-KindsEnd h)

module _ (built : Build) (consts : Table ℤ) (fns : Table FuncDecl) where
  pub fold_here-Post : (t : State) → Ends (rest_of t) → Post t 0 (fold_here built consts fns t)
  unfolding fold_here
  fold_here-Post t h =
      let kinds = map (λ (x : Token). x.kind) (rest_of t) in
      folding-Post (length kinds) (try_fold_int built.overflow_checks consts fns kinds) t h
        ((try_fold_int-ends built.overflow_checks consts fns kinds).1)
        (try_fold_int-ne-out_of_bounds built.overflow_checks consts fns kinds (Ends-KindsEnd h))
