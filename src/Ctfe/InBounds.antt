-- ===== src/Ctfe/InBounds.antt =====
-- crates/parser/src/lib.rs: `try_fold_int` does not read behind the end of the file.
use maka.Base.{
  ℕ, zero, suc, ◌≢◌, ◌≡◌, Bool, true, false, List, [], ◌∷◌, ◌++◌, Option, none, some, Bytes,
  if◌then◌else◌,
}
use maka.Base.Int.{ℤ}
use maka.Ast.Items.{FuncDecl}
use maka.Ctfe.Eval.{eval_const_fn}
use maka.Ctfe.Fold.{
  Folded, folded, no_value, panicked, out_of_bounds, out_of_fuel, and_then, divide, close_paren,
  of_call, of_constant, call_budget, call_fuel, negate, call_folded, fold_addsub, addsub_loop,
  fold_muldiv, muldiv_loop, fold_atom, fold_args, fold_more, try_fold_int,
}
use maka.Ctfe.Outcome.{Outcome, Table, get}
use maka.Ctfe.Outcome as Run
use maka.Ctfe.Word.{
  wrapping_add, wrapping_sub, wrapping_mul, is_zero, int_div, int_rem, div_overflows,
}
use maka.Lexer.Token.{
  TokKind, int, true_kw, false_kw, char_lit, minus, plus, star, slash, percent, lparen, rparen,
  comma, ident, eof,
}

-- The kinds end with the end of the file.
pub data KindsEnd : List TokKind → Type 0 where
  last : {k : TokKind} → k ≡ eof → KindsEnd (k ∷ [])
  more : {k : TokKind} {ks : List TokKind} → KindsEnd ks → KindsEnd (k ∷ ks)

KindsEnd-tail : {k : TokKind} {ks : List TokKind} → k ≢ eof → KindsEnd (k ∷ ks) → KindsEnd ks
KindsEnd-tail n (last e) = absurd (n e)
KindsEnd-tail n (more h) = h

ident-last : {name : Bytes} → KindsEnd (ident name ∷ []) → ⊥
ident-last (last e) = cc
ident-last (more h) = elim h [ ]

-- Where there is a value the kinds left end with the end of the file, and nothing behind it was read.
data InBounds : Folded → Type 0 where
  leaves : {v : ℤ} {ts : List TokKind} → KindsEnd ts → InBounds (folded v ts)
  has_none : InBounds no_value
  panics : InBounds panicked
  stops : InBounds out_of_fuel

InBounds-ne-out_of_bounds : {r : Folded} → InBounds r → r ≢ out_of_bounds
InBounds-ne-out_of_bounds (leaves h) = cc
InBounds-ne-out_of_bounds has_none = cc
InBounds-ne-out_of_bounds panics = cc
InBounds-ne-out_of_bounds stops = cc

InBounds-bind :
    {r : Folded} {k : ℤ → List TokKind → Folded}
    → InBounds r
    → ((v : ℤ) (ts : List TokKind) → KindsEnd ts → InBounds (k v ts))
    → InBounds (and_then r k)
InBounds-bind (leaves {v} {ts} h) j = j v ts h
InBounds-bind has_none j = has_none
InBounds-bind panics j = panics
InBounds-bind stops j = stops

InBounds-if : (t : Bool) {x y : Folded} → InBounds x → InBounds y → InBounds (if t then x else y)
InBounds-if true hx hy = hx
InBounds-if false hx hy = hy

divide-InBounds :
    (op : ℤ → ℤ → ℤ) (l r : ℤ) (ts : List TokKind) → KindsEnd ts → InBounds (divide op l r ts)
unfolding divide
divide-InBounds op l r ts h =
    InBounds-if (is_zero r) has_none (InBounds-if (div_overflows l r) panics (leaves h))

negate-InBounds : (c : Bool) (v : ℤ) (ts : List TokKind) → KindsEnd ts → InBounds (negate c v ts)
unfolding negate
negate-InBounds c v ts h = InBounds-if _ panics (leaves h)

close_paren-InBounds : (v : ℤ) (ts : List TokKind) → KindsEnd ts → InBounds (close_paren v ts)
unfolding close_paren
close_paren-InBounds v [] h = elim h [ ]
close_paren-InBounds v (rparen ∷ ts) h = leaves (KindsEnd-tail (λ e. cc) h)
close_paren-InBounds v (_ ∷ ts) h = has_none

of_constant-InBounds :
    (o : Option ℤ) (ts : List TokKind) → KindsEnd ts → InBounds (of_constant o ts)
of_constant-InBounds none ts h = has_none
of_constant-InBounds (some v) ts h = leaves h

of_call-InBounds : (r : Outcome ℤ) (ts : List TokKind) → KindsEnd ts → InBounds (of_call r ts)
of_call-InBounds (Run.done v b) ts h = leaves h
of_call-InBounds Run.no_value ts h = has_none
of_call-InBounds Run.panicked ts h = panics
of_call-InBounds Run.out_of_fuel ts h = stops

module _ (checks : Bool) (consts : Table ℤ) (fns : Table FuncDecl) where
  call_folded-InBounds :
      (name : Bytes) (args : List ℤ) (ts : List TokKind)
      → KindsEnd ts
      → InBounds (call_folded checks consts fns name args ts)
  unfolding call_folded
  call_folded-InBounds name args ts h =
      of_call-InBounds (eval_const_fn consts fns call_fuel name args call_budget) ts h

  mutual
    unfolding fold_addsub addsub_loop fold_muldiv muldiv_loop fold_atom fold_args fold_more

    fold_addsub-InBounds :
        (f : ℕ) (ts : List TokKind) → KindsEnd ts → InBounds (fold_addsub checks consts fns f ts)
    fold_addsub-InBounds zero ts h = stops
    fold_addsub-InBounds (suc f) ts h =
        InBounds-bind (fold_muldiv-InBounds f ts h) (addsub_loop-InBounds f)

    addsub_loop-InBounds :
        (f : ℕ) (v : ℤ) (ts : List TokKind)
        → KindsEnd ts
        → InBounds (addsub_loop checks consts fns f v ts)
    addsub_loop-InBounds zero v ts h = stops
    addsub_loop-InBounds (suc f) v [] h = elim h [ ]
    addsub_loop-InBounds (suc f) v (plus ∷ ts) h =
        InBounds-bind (fold_muldiv-InBounds f ts (KindsEnd-tail (λ e. cc) h))
          (λ r. addsub_loop-InBounds f (wrapping_add v r))
    addsub_loop-InBounds (suc f) v (minus ∷ ts) h =
        InBounds-bind (fold_muldiv-InBounds f ts (KindsEnd-tail (λ e. cc) h))
          (λ r. addsub_loop-InBounds f (wrapping_sub v r))
    addsub_loop-InBounds (suc f) v (k ∷ ts) h = leaves h

    fold_muldiv-InBounds :
        (f : ℕ) (ts : List TokKind) → KindsEnd ts → InBounds (fold_muldiv checks consts fns f ts)
    fold_muldiv-InBounds zero ts h = stops
    fold_muldiv-InBounds (suc f) ts h =
        InBounds-bind (fold_atom-InBounds f ts h) (muldiv_loop-InBounds f)

    muldiv_loop-InBounds :
        (f : ℕ) (v : ℤ) (ts : List TokKind)
        → KindsEnd ts
        → InBounds (muldiv_loop checks consts fns f v ts)
    muldiv_loop-InBounds zero v ts h = stops
    muldiv_loop-InBounds (suc f) v [] h = elim h [ ]
    muldiv_loop-InBounds (suc f) v (star ∷ ts) h =
        InBounds-bind (fold_atom-InBounds f ts (KindsEnd-tail (λ e. cc) h))
          (λ r. muldiv_loop-InBounds f (wrapping_mul v r))
    muldiv_loop-InBounds (suc f) v (slash ∷ ts) h =
        InBounds-bind (fold_atom-InBounds f ts (KindsEnd-tail (λ e. cc) h))
          (λ r us g. InBounds-bind (divide-InBounds int_div v r us g) (muldiv_loop-InBounds f))
    muldiv_loop-InBounds (suc f) v (percent ∷ ts) h =
        InBounds-bind (fold_atom-InBounds f ts (KindsEnd-tail (λ e. cc) h))
          (λ r us g. InBounds-bind (divide-InBounds int_rem v r us g) (muldiv_loop-InBounds f))
    muldiv_loop-InBounds (suc f) v (k ∷ ts) h = leaves h

    fold_atom-InBounds :
        (f : ℕ) (ts : List TokKind) → KindsEnd ts → InBounds (fold_atom checks consts fns f ts)
    fold_atom-InBounds (suc f) [] h = elim h [ ]
    fold_atom-InBounds (suc f) (int n ∷ ts) h = leaves (KindsEnd-tail (λ e. cc) h)
    fold_atom-InBounds (suc f) (true_kw ∷ ts) h = leaves (KindsEnd-tail (λ e. cc) h)
    fold_atom-InBounds (suc f) (false_kw ∷ ts) h = leaves (KindsEnd-tail (λ e. cc) h)
    fold_atom-InBounds (suc f) (char_lit c ∷ ts) h = leaves (KindsEnd-tail (λ e. cc) h)
    fold_atom-InBounds (suc f) (minus ∷ ts) h =
        InBounds-bind (fold_atom-InBounds f ts (KindsEnd-tail (λ e. cc) h)) (negate-InBounds checks)
    fold_atom-InBounds (suc f) (lparen ∷ ts) h =
        InBounds-bind (fold_addsub-InBounds f ts (KindsEnd-tail (λ e. cc) h)) close_paren-InBounds
    fold_atom-InBounds (suc f) (ident name ∷ []) h = absurd (ident-last h)
    fold_atom-InBounds (suc f) (ident name ∷ lparen ∷ rparen ∷ ts) h =
        call_folded-InBounds name [] ts
          (KindsEnd-tail (λ e. cc) (KindsEnd-tail (λ e. cc) (KindsEnd-tail (λ e. cc) h)))
    fold_atom-InBounds (suc f) (ident name ∷ lparen ∷ ts) h =
        fold_args-InBounds f name [] ts (KindsEnd-tail (λ e. cc) (KindsEnd-tail (λ e. cc) h))
    fold_atom-InBounds (suc f) (ident name ∷ ts) h =
        of_constant-InBounds (get consts name) ts (KindsEnd-tail (λ e. cc) h)
    fold_atom-InBounds zero ts h = stops
    fold_atom-InBounds (suc f) ts h = has_none

    fold_args-InBounds :
        (f : ℕ) (name : Bytes) (args : List ℤ) (ts : List TokKind)
        → KindsEnd ts
        → InBounds (fold_args checks consts fns f name args ts)
    fold_args-InBounds zero name args ts h = stops
    fold_args-InBounds (suc f) name args ts h =
        InBounds-bind (fold_addsub-InBounds f ts h)
          (λ a. fold_more-InBounds f name (args ++ a ∷ []))

    fold_more-InBounds :
        (f : ℕ) (name : Bytes) (args : List ℤ) (ts : List TokKind)
        → KindsEnd ts
        → InBounds (fold_more checks consts fns f name args ts)
    fold_more-InBounds zero name args ts h = stops
    fold_more-InBounds (suc f) name args [] h = elim h [ ]
    fold_more-InBounds (suc f) name args (comma ∷ ts) h =
        fold_args-InBounds f name args ts (KindsEnd-tail (λ e. cc) h)
    fold_more-InBounds (suc f) name args (rparen ∷ ts) h =
        call_folded-InBounds name args ts (KindsEnd-tail (λ e. cc) h)
    fold_more-InBounds (suc f) name args ts h = has_none

  -- Folding never reads behind the last token, if that is the end of the file.
  pub try_fold_int-ne-out_of_bounds :
      (ts : List TokKind) → KindsEnd ts → try_fold_int checks consts fns ts ≢ out_of_bounds
  unfolding try_fold_int
  try_fold_int-ne-out_of_bounds ts h = InBounds-ne-out_of_bounds (fold_addsub-InBounds _ ts h)
