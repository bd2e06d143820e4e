-- ===== src/Ctfe/Shrinks.antt =====
-- crates/parser/src/lib.rs: the fuel of `try_fold_int`, and the tokens that it reads.
use maka.Base.{
  ℕ, zero, suc, ◌+◌, ◌*◌, ◌<◌, ◌≤◌, ◌≢◌, refl, Bool, true, false, List, [], ◌∷◌, ◌++◌, Option, none,
  some, Bytes, length, if◌then◌else◌, arith,
}
use maka.Base.Int.{ℤ}
use maka.Ast.Items.{FuncDecl}
use maka.Ctfe.Eval.{eval_const_fn}
use maka.Ctfe.Fold.{
  Folded, folded, no_value, panicked, out_of_bounds, out_of_fuel, and_then, divide, close_paren,
  of_call, of_constant, call_budget, call_fuel, negate, call_folded, fold_addsub, addsub_loop,
  fold_muldiv, muldiv_loop, fold_atom, fold_args, fold_more, try_fold_int,
}
use maka.Ctfe.Fuel.{eval_const_fn-ends}
use maka.Ctfe.Outcome.{Outcome, Table, get}
use maka.Ctfe.Outcome as Run
use maka.Ctfe.Word.{
  wrapping_add, wrapping_sub, wrapping_mul, is_zero, int_div, int_rem, div_overflows,
}
use maka.Lexer.Token.{
  TokKind, int, true_kw, false_kw, char_lit, minus, plus, star, slash, percent, lparen, rparen,
  comma, ident,
}

-- The folding kept within its fuel, and fewer than `n` tokens are left where it has a value.
pub data Shrinks (n : ℕ) : Folded → Type 0 where
  leaves : {v : ℤ} {ts : List TokKind} → length ts < n → Shrinks n (folded v ts)
  has_none : Shrinks n no_value
  panics : Shrinks n panicked
  peeks : Shrinks n out_of_bounds

Shrinks-ne-out_of_fuel : {n : ℕ} {r : Folded} → Shrinks n r → r ≢ out_of_fuel
Shrinks-ne-out_of_fuel (leaves h) = cc
Shrinks-ne-out_of_fuel has_none = cc
Shrinks-ne-out_of_fuel panics = cc
Shrinks-ne-out_of_fuel peeks = cc

Shrinks-bind :
    {n m : ℕ} {r : Folded} {k : ℤ → List TokKind → Folded}
    → Shrinks n r
    → ((v : ℤ) (ts : List TokKind) → length ts < n → Shrinks m (k v ts))
    → Shrinks m (and_then r k)
Shrinks-bind (leaves {v} {ts} h) j = j v ts h
Shrinks-bind has_none j = has_none
Shrinks-bind panics j = panics
Shrinks-bind peeks j = peeks

Shrinks-mono : {n m : ℕ} {r : Folded} → Shrinks n r → n ≤ m → Shrinks m r
Shrinks-mono (leaves h) le = leaves (omega arith)
Shrinks-mono has_none le = has_none
Shrinks-mono panics le = panics
Shrinks-mono peeks le = peeks

Shrinks-if :
    {n : ℕ} (t : Bool) {x y : Folded} → Shrinks n x → Shrinks n y → Shrinks n (if t then x else y)
Shrinks-if true hx hy = hx
Shrinks-if false hx hy = hy

divide-Shrinks :
    (op : ℤ → ℤ → ℤ) (l r : ℤ) (ts : List TokKind) → Shrinks (suc (length ts)) (divide op l r ts)
unfolding divide
divide-Shrinks op l r ts =
    Shrinks-if (is_zero r) has_none (Shrinks-if (div_overflows l r) panics (leaves (omega arith)))

negate-Shrinks : (c : Bool) (v : ℤ) (ts : List TokKind) → Shrinks (suc (length ts)) (negate c v ts)
unfolding negate
negate-Shrinks c v ts = Shrinks-if _ panics (leaves (omega arith))

close_paren-Shrinks : (v : ℤ) (ts : List TokKind) → Shrinks (length ts) (close_paren v ts)
unfolding close_paren
close_paren-Shrinks v (rparen ∷ ts) = leaves (omega arith)
close_paren-Shrinks v [] = peeks
close_paren-Shrinks v (_ ∷ ts) = has_none

of_constant-Shrinks :
    (o : Option ℤ) (ts : List TokKind) → Shrinks (suc (length ts)) (of_constant o ts)
of_constant-Shrinks none ts = has_none
of_constant-Shrinks (some v) ts = leaves (omega arith)

of_call-Shrinks :
    (r : Outcome ℤ) (ts : List TokKind)
    → r ≢ Run.out_of_fuel
    → Shrinks (suc (length ts)) (of_call r ts)
of_call-Shrinks (Run.done v b) ts h = leaves (omega arith)
of_call-Shrinks Run.no_value ts h = has_none
of_call-Shrinks Run.panicked ts h = panics
of_call-Shrinks Run.out_of_fuel ts h = absurd (h refl)

module _ (checks : Bool) (consts : Table ℤ) (fns : Table FuncDecl) where
  call_folded-Shrinks :
      (name : Bytes) (args : List ℤ) (ts : List TokKind)
      → Shrinks (suc (length ts)) (call_folded checks consts fns name args ts)
  unfolding call_folded
  call_folded-Shrinks name args ts =
      of_call-Shrinks (eval_const_fn consts fns call_fuel name args call_budget) ts
        (eval_const_fn-ends consts fns name args call_budget call_fuel (omega arith)).1

  mutual
    unfolding fold_addsub addsub_loop fold_muldiv muldiv_loop fold_atom fold_args fold_more

    fold_addsub-Shrinks :
        (f : ℕ) (ts : List TokKind)
        → 5 * length ts + 3 ≤ f
        → Shrinks (length ts) (fold_addsub checks consts fns f ts)
    fold_addsub-Shrinks zero ts h = absurd (omega arith)
    fold_addsub-Shrinks (suc f) ts h =
        Shrinks-bind (fold_muldiv-Shrinks f ts (omega arith))
          (λ v us le. Shrinks-mono (addsub_loop-Shrinks f v us (omega arith)) (omega arith))

    addsub_loop-Shrinks :
        (f : ℕ) (v : ℤ) (ts : List TokKind)
        → 5 * length ts + 1 ≤ f
        → Shrinks (suc (length ts)) (addsub_loop checks consts fns f v ts)
    addsub_loop-Shrinks zero v ts h = absurd (omega arith)
    addsub_loop-Shrinks (suc f) v [] h = peeks
    addsub_loop-Shrinks (suc f) v (plus ∷ ts) h =
        Shrinks-bind (fold_muldiv-Shrinks f ts (omega arith)) (λ r us le.
          Shrinks-mono (addsub_loop-Shrinks f (wrapping_add v r) us (omega arith)) (omega arith))
    addsub_loop-Shrinks (suc f) v (minus ∷ ts) h =
        Shrinks-bind (fold_muldiv-Shrinks f ts (omega arith)) (λ r us le.
          Shrinks-mono (addsub_loop-Shrinks f (wrapping_sub v r) us (omega arith)) (omega arith))
    addsub_loop-Shrinks (suc f) v ts h = leaves (omega arith)

    fold_muldiv-Shrinks :
        (f : ℕ) (ts : List TokKind)
        → 5 * length ts + 2 ≤ f
        → Shrinks (length ts) (fold_muldiv checks consts fns f ts)
    fold_muldiv-Shrinks zero ts h = absurd (omega arith)
    fold_muldiv-Shrinks (suc f) ts h =
        Shrinks-bind (fold_atom-Shrinks f ts (omega arith))
          (λ v us le. Shrinks-mono (muldiv_loop-Shrinks f v us (omega arith)) (omega arith))

    muldiv_loop-Shrinks :
        (f : ℕ) (v : ℤ) (ts : List TokKind)
        → 5 * length ts + 1 ≤ f
        → Shrinks (suc (length ts)) (muldiv_loop checks consts fns f v ts)
    muldiv_loop-Shrinks zero v ts h = absurd (omega arith)
    muldiv_loop-Shrinks (suc f) v [] h = peeks
    muldiv_loop-Shrinks (suc f) v (star ∷ ts) h =
        Shrinks-bind (fold_atom-Shrinks f ts (omega arith)) (λ r us le.
          Shrinks-mono (muldiv_loop-Shrinks f (wrapping_mul v r) us (omega arith)) (omega arith))
    muldiv_loop-Shrinks (suc f) v (slash ∷ ts) h =
        Shrinks-bind (fold_atom-Shrinks f ts (omega arith)) (λ r us le.
          Shrinks-bind (divide-Shrinks int_div v r us)
            (λ q ws le'. Shrinks-mono (muldiv_loop-Shrinks f q ws (omega arith)) (omega arith)))
    muldiv_loop-Shrinks (suc f) v (percent ∷ ts) h =
        Shrinks-bind (fold_atom-Shrinks f ts (omega arith)) (λ r us le.
          Shrinks-bind (divide-Shrinks int_rem v r us)
            (λ q ws le'. Shrinks-mono (muldiv_loop-Shrinks f q ws (omega arith)) (omega arith)))
    muldiv_loop-Shrinks (suc f) v ts h = leaves (omega arith)

    fold_atom-Shrinks :
        (f : ℕ) (ts : List TokKind)
        → 5 * length ts + 1 ≤ f
        → Shrinks (length ts) (fold_atom checks consts fns f ts)
    fold_atom-Shrinks (suc f) [] h = peeks
    fold_atom-Shrinks (suc f) (int n ∷ ts) h = leaves (omega arith)
    fold_atom-Shrinks (suc f) (true_kw ∷ ts) h = leaves (omega arith)
    fold_atom-Shrinks (suc f) (false_kw ∷ ts) h = leaves (omega arith)
    fold_atom-Shrinks (suc f) (char_lit c ∷ ts) h = leaves (omega arith)
    fold_atom-Shrinks (suc f) (minus ∷ ts) h =
        Shrinks-bind (fold_atom-Shrinks f ts (omega arith))
          (λ v us le. Shrinks-mono (negate-Shrinks checks v us) (omega arith))
    fold_atom-Shrinks (suc f) (lparen ∷ ts) h =
        Shrinks-bind (fold_addsub-Shrinks f ts (omega arith))
          (λ v us le. Shrinks-mono (close_paren-Shrinks v us) (omega arith))
    fold_atom-Shrinks (suc f) (ident name ∷ []) h = peeks
    fold_atom-Shrinks (suc f) (ident name ∷ lparen ∷ rparen ∷ ts) h =
        Shrinks-mono (call_folded-Shrinks name [] ts) (omega arith)
    fold_atom-Shrinks (suc f) (ident name ∷ lparen ∷ ts) h =
        Shrinks-mono (fold_args-Shrinks f name [] ts (omega arith)) (omega arith)
    fold_atom-Shrinks (suc f) (ident name ∷ ts) h =
        Shrinks-mono (of_constant-Shrinks (get consts name) ts) (omega arith)
    fold_atom-Shrinks zero ts h = absurd (omega arith)
    fold_atom-Shrinks (suc f) ts h = has_none

    fold_args-Shrinks :
        (f : ℕ) (name : Bytes) (args : List ℤ) (ts : List TokKind)
        → 5 * length ts + 4 ≤ f
        → Shrinks (length ts) (fold_args checks consts fns f name args ts)
    fold_args-Shrinks zero name args ts h = absurd (omega arith)
    fold_args-Shrinks (suc f) name args ts h =
        Shrinks-bind (fold_addsub-Shrinks f ts (omega arith)) (λ a us le.
          Shrinks-mono (fold_more-Shrinks f name (args ++ a ∷ []) us (omega arith)) (omega arith))

    fold_more-Shrinks :
        (f : ℕ) (name : Bytes) (args : List ℤ) (ts : List TokKind)
        → 5 * length ts + 1 ≤ f
        → Shrinks (length ts) (fold_more checks consts fns f name args ts)
    fold_more-Shrinks zero name args ts h = absurd (omega arith)
    fold_more-Shrinks (suc f) name args [] h = peeks
    fold_more-Shrinks (suc f) name args (comma ∷ ts) h =
        Shrinks-mono (fold_args-Shrinks f name args ts (omega arith)) (omega arith)
    fold_more-Shrinks (suc f) name args (rparen ∷ ts) h =
        Shrinks-mono (call_folded-Shrinks name args ts) (omega arith)
    fold_more-Shrinks (suc f) name args ts h = has_none

  -- Folding ends on every list of tokens, also with calls of constexpr functions in it; where it has a
  -- value it read at least one token.
  pub try_fold_int-ends :
      (ts : List TokKind)
      → Shrinks (length ts) (try_fold_int checks consts fns ts)
        × (try_fold_int checks consts fns ts ≢ out_of_fuel)
  unfolding try_fold_int
  try_fold_int-ends ts =
      let s = fold_addsub-Shrinks (5 * length ts + 3) ts (omega arith) in
      (s, Shrinks-ne-out_of_fuel s)
