-- ===== src/Ctfe/Precedence.antt =====
-- crates/parser/src/lib.rs: `try_fold_int` on the tokens of an expression.
use maka.Base.{
  ℕ, zero, suc, ◌+◌, ◌*◌, length, ◌≤◌, ◌≡◌, refl, ap, ◌∙◌, Bool, true, false, List, [], ◌∷◌, arith,
}
use maka.Base.Int.{ℤ}
use maka.Ast.Items.{FuncDecl}
use maka.Ctfe.Fold.{
  and_then, divide, close_paren, negate, fold_addsub, addsub_loop, fold_muldiv, muldiv_loop,
  fold_atom, try_fold_int,
}
use maka.Ctfe.Outcome.{Table, get}
use maka.Ctfe.Sums.{
  Atom, number, truth, letter, constant, negative, paren, Product, product, Factors, no_factors,
  times, over, modulo, Sum, sum, Terms, no_terms, more, less, atom_tokens, product_tokens,
  factors_tokens, sum_tokens, terms_tokens, atom_value, product_value, factors_value, sum_value,
  terms_value, atom_cost, product_cost, factors_cost, sum_cost, terms_cost, ends_atom, ends_product,
  ends_sum,
}
use maka.Ctfe.Word.{wrapping_add, wrapping_sub, wrapping_mul, int_div, int_rem}
use maka.Lexer.Token.{TokKind, rparen}
use maka.Ctfe.Costs.{sum_cost-le}
use maka.Ctfe.Give.{
  give, close_paren-give, and_then-give, divide-give, negate-give, of_constant-give, factors-ends,
  terms-ends, muldiv_loop-stop, addsub_loop-stop, fold_atom-constant,
}

module _ (checks : Bool) (consts : Table ℤ) (fns : Table FuncDecl) where
  divided :
      (f : ℕ) (op : ℤ → ℤ → ℤ) (v w : ℤ) (fs : Factors) (rest : List TokKind)
      → ((q : ℤ)
          → muldiv_loop checks consts fns f q (factors_tokens fs rest)
            ≡ give (factors_value checks consts q fs) rest)
      → and_then (divide op v w (factors_tokens fs rest)) (muldiv_loop checks consts fns f)
        ≡ give (and_then (divide op v w []) (λ q us. factors_value checks consts q fs)) rest
  divided f op v w fs rest k =
      ap (λ r. and_then r (muldiv_loop checks consts fns f))
        (divide-give op v w (factors_tokens fs rest))
      ∙ and_then-give (divide op v w []) (factors_tokens fs rest) rest
          (muldiv_loop checks consts fns f) (λ q. factors_value checks consts q fs) k

  mutual
    unfolding fold_addsub addsub_loop fold_muldiv muldiv_loop fold_atom atom_tokens product_tokens
        factors_tokens sum_tokens terms_tokens atom_value product_value factors_value sum_value
        terms_value atom_cost product_cost factors_cost sum_cost terms_cost close_paren

    fold_atom-tokens :
        (f : ℕ) (a : Atom) (rest : List TokKind)
        → atom_cost a ≤ f
        → ends_atom rest ≡ true
        → fold_atom checks consts fns f (atom_tokens a rest)
          ≡ give (atom_value checks consts a) rest
    fold_atom-tokens zero (number n) rest h e = absurd (omega arith)
    fold_atom-tokens zero (truth true) rest h e = absurd (omega arith)
    fold_atom-tokens zero (truth false) rest h e = absurd (omega arith)
    fold_atom-tokens zero (letter c) rest h e = absurd (omega arith)
    fold_atom-tokens zero (constant n) rest h e = absurd (omega arith)
    fold_atom-tokens zero (negative a) rest h e = absurd (omega arith)
    fold_atom-tokens zero (paren s) rest h e = absurd (omega arith)
    fold_atom-tokens (suc f) (number n) rest h e = refl
    fold_atom-tokens (suc f) (truth true) rest h e = refl
    fold_atom-tokens (suc f) (truth false) rest h e = refl
    fold_atom-tokens (suc f) (letter c) rest h e = refl
    fold_atom-tokens (suc f) (constant name) rest h e =
        fold_atom-constant checks consts fns f name rest e ∙ of_constant-give (get consts name) rest
    fold_atom-tokens (suc f) (negative a) rest h e =
        ap (λ r. and_then r (negate checks)) (fold_atom-tokens f a rest (omega arith) e)
        ∙ and_then-give (atom_value checks consts a) rest rest (negate checks)
            (λ v. negate checks v []) (λ v. negate-give checks v rest)
    fold_atom-tokens (suc f) (paren s) rest h e =
        ap (λ r. and_then r close_paren) (fold_addsub-sum f s (rparen ∷ rest) (omega arith) refl)
        ∙ close_paren-give (sum_value checks consts s) rest

    fold_muldiv-product :
        (f : ℕ) (p : Product) (rest : List TokKind)
        → product_cost p ≤ f
        → ends_product rest ≡ true
        → fold_muldiv checks consts fns f (product_tokens p rest)
          ≡ give (product_value checks consts p) rest
    fold_muldiv-product zero (product a fs) rest h e = absurd (omega arith)
    fold_muldiv-product (suc f) (product a fs) rest h e =
        ap (λ r. and_then r (muldiv_loop checks consts fns f))
          (fold_atom-tokens f a (factors_tokens fs rest) (omega arith) (factors-ends fs rest e))
        ∙ and_then-give (atom_value checks consts a) (factors_tokens fs rest) rest
            (muldiv_loop checks consts fns f) (λ v. factors_value checks consts v fs)
            (λ v. muldiv_loop-factors f v fs rest (omega arith) e)

    muldiv_loop-factors :
        (f : ℕ) (v : ℤ) (fs : Factors) (rest : List TokKind)
        → factors_cost fs ≤ f
        → ends_product rest ≡ true
        → muldiv_loop checks consts fns f v (factors_tokens fs rest)
          ≡ give (factors_value checks consts v fs) rest
    muldiv_loop-factors zero v no_factors rest h e = absurd (omega arith)
    muldiv_loop-factors zero v (times a fs) rest h e = absurd (omega arith)
    muldiv_loop-factors zero v (over a fs) rest h e = absurd (omega arith)
    muldiv_loop-factors zero v (modulo a fs) rest h e = absurd (omega arith)
    muldiv_loop-factors (suc f) v no_factors rest h e =
        muldiv_loop-stop checks consts fns f v rest e
    muldiv_loop-factors (suc f) v (times a fs) rest h e =
        ap (λ r. and_then r (λ w. muldiv_loop checks consts fns f (wrapping_mul v w)))
          (fold_atom-tokens f a (factors_tokens fs rest) (omega arith) (factors-ends fs rest e))
        ∙ and_then-give (atom_value checks consts a) (factors_tokens fs rest) rest
            (λ w. muldiv_loop checks consts fns f (wrapping_mul v w))
            (λ w. factors_value checks consts (wrapping_mul v w) fs)
            (λ w. muldiv_loop-factors f (wrapping_mul v w) fs rest (omega arith) e)
    muldiv_loop-factors (suc f) v (over a fs) rest h e =
        ap
          (λ r.
            and_then r (λ w us. and_then (divide int_div v w us) (muldiv_loop checks consts fns f)))
          (fold_atom-tokens f a (factors_tokens fs rest) (omega arith) (factors-ends fs rest e))
        ∙ and_then-give (atom_value checks consts a) (factors_tokens fs rest) rest
            (λ w us. and_then (divide int_div v w us) (muldiv_loop checks consts fns f))
            (λ w. and_then (divide int_div v w []) (λ q us. factors_value checks consts q fs))
            (λ w.
              divided f int_div v w fs rest (λ q. muldiv_loop-factors f q fs rest (omega arith) e))
    muldiv_loop-factors (suc f) v (modulo a fs) rest h e =
        ap
          (λ r.
            and_then r (λ w us. and_then (divide int_rem v w us) (muldiv_loop checks consts fns f)))
          (fold_atom-tokens f a (factors_tokens fs rest) (omega arith) (factors-ends fs rest e))
        ∙ and_then-give (atom_value checks consts a) (factors_tokens fs rest) rest
            (λ w us. and_then (divide int_rem v w us) (muldiv_loop checks consts fns f))
            (λ w. and_then (divide int_rem v w []) (λ q us. factors_value checks consts q fs))
            (λ w.
              divided f int_rem v w fs rest (λ q. muldiv_loop-factors f q fs rest (omega arith) e))

    fold_addsub-sum :
        (f : ℕ) (s : Sum) (rest : List TokKind)
        → sum_cost s ≤ f
        → ends_sum rest ≡ true
        → fold_addsub checks consts fns f (sum_tokens s rest)
          ≡ give (sum_value checks consts s) rest
    fold_addsub-sum zero (sum p ts) rest h e = absurd (omega arith)
    fold_addsub-sum (suc f) (sum p ts) rest h e =
        ap (λ r. and_then r (addsub_loop checks consts fns f))
          (fold_muldiv-product f p (terms_tokens ts rest) (omega arith) (terms-ends ts rest e))
        ∙ and_then-give (product_value checks consts p) (terms_tokens ts rest) rest
            (addsub_loop checks consts fns f) (λ v. terms_value checks consts v ts)
            (λ v. addsub_loop-terms f v ts rest (omega arith) e)

    addsub_loop-terms :
        (f : ℕ) (v : ℤ) (ts : Terms) (rest : List TokKind)
        → terms_cost ts ≤ f
        → ends_sum rest ≡ true
        → addsub_loop checks consts fns f v (terms_tokens ts rest)
          ≡ give (terms_value checks consts v ts) rest
    addsub_loop-terms zero v no_terms rest h e = absurd (omega arith)
    addsub_loop-terms zero v (more p ts) rest h e = absurd (omega arith)
    addsub_loop-terms zero v (less p ts) rest h e = absurd (omega arith)
    addsub_loop-terms (suc f) v no_terms rest h e = addsub_loop-stop checks consts fns f v rest e
    addsub_loop-terms (suc f) v (more p ts) rest h e =
        ap (λ r. and_then r (λ w. addsub_loop checks consts fns f (wrapping_add v w)))
          (fold_muldiv-product f p (terms_tokens ts rest) (omega arith) (terms-ends ts rest e))
        ∙ and_then-give (product_value checks consts p) (terms_tokens ts rest) rest
            (λ w. addsub_loop checks consts fns f (wrapping_add v w))
            (λ w. terms_value checks consts (wrapping_add v w) ts)
            (λ w. addsub_loop-terms f (wrapping_add v w) ts rest (omega arith) e)
    addsub_loop-terms (suc f) v (less p ts) rest h e =
        ap (λ r. and_then r (λ w. addsub_loop checks consts fns f (wrapping_sub v w)))
          (fold_muldiv-product f p (terms_tokens ts rest) (omega arith) (terms-ends ts rest e))
        ∙ and_then-give (product_value checks consts p) (terms_tokens ts rest) rest
            (λ w. addsub_loop checks consts fns f (wrapping_sub v w))
            (λ w. terms_value checks consts (wrapping_sub v w) ts)
            (λ w. addsub_loop-terms f (wrapping_sub v w) ts rest (omega arith) e)

  -- Folding the tokens of an expression gives its value, where products bind tighter than sums and
  -- operators of one level group to the left, and stops in front of the token that follows it, if that
  -- is none of `+ - * / %` and no `(`. Where a division has no value or overflows, or a constant is unknown,
  -- the folding has none or panics as the value does.
  pub try_fold_int-sum :
      (s : Sum) (rest : List TokKind)
      → ends_sum rest ≡ true
      → try_fold_int checks consts fns (sum_tokens s rest) ≡ give (sum_value checks consts s) rest
  unfolding try_fold_int
  try_fold_int-sum s rest h =
      fold_addsub-sum (5 * length (sum_tokens s rest) + 3) s rest
        (omega (arith, sum_cost-le s rest)) h
