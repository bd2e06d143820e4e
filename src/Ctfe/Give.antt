-- ===== src/Ctfe/Give.antt =====
-- crates/parser/src/lib.rs: the steps of the folder on a value that tokens follow.
use maka.Base.{
  ℕ, suc, ◌-◌, ◌≡◌, refl, ap, ◌∙◌, Bool, true, false, ◌&&◌, List, [], ◌∷◌, Option, none, some,
  Bytes, if◌then◌else◌,
}
use maka.Base.Int.{ℤ, negsuc, i64_half}
use maka.Ast.Items.{FuncDecl}
use maka.Ctfe.Fold.{
  Folded, folded, no_value, panicked, out_of_bounds, out_of_fuel, and_then, divide, close_paren,
  of_constant, negate, addsub_loop, muldiv_loop, fold_atom,
}
use maka.Ctfe.Outcome.{Table, get}
use maka.Ctfe.Sums.{
  Factors, no_factors, times, over, modulo, Terms, no_terms, more, less, factors_tokens,
  terms_tokens, ends_atom, ends_product, ends_sum,
}
use maka.Ctfe.Word.{wrapping_neg, int_eq, is_zero, div_overflows}
use maka.Lexer.Token.{TokKind, plus, minus, star, slash, percent, lparen, rparen, ident}

-- A value, and `rest` behind it.
abbrev pub give : Folded → List TokKind → Folded
give (folded v _) rest = folded v rest
give no_value rest = no_value
give panicked rest = panicked
give out_of_bounds rest = out_of_bounds
give out_of_fuel rest = out_of_fuel

pub and_then-give :
    (r : Folded) (rest rest' : List TokKind) (k : ℤ → List TokKind → Folded) (g : ℤ → Folded)
    → ((v : ℤ) → k v rest ≡ give (g v) rest')
    → and_then (give r rest) k ≡ give (and_then r (λ v ts. g v)) rest'
and_then-give (folded v ts) rest rest' k g h = h v
and_then-give no_value rest rest' k g h = refl
and_then-give panicked rest rest' k g h = refl
and_then-give out_of_bounds rest rest' k g h = refl
and_then-give out_of_fuel rest rest' k g h = refl

if-give :
    (t : Bool) (x y : Folded) (rest : List TokKind)
    → (if t then give x rest else give y rest) ≡ give (if t then x else y) rest
if-give true x y rest = refl
if-give false x y rest = refl

pub divide-give :
    (op : ℤ → ℤ → ℤ) (l r : ℤ) (rest : List TokKind)
    → divide op l r rest ≡ give (divide op l r []) rest
unfolding divide
divide-give op l r rest =
    let x = if-give (div_overflows l r) panicked (folded (op l r) []) rest in
    ap (λ y. if is_zero r then no_value else y) x
    ∙ if-give (is_zero r) no_value (if div_overflows l r then panicked else folded (op l r) []) rest

pub negate-give :
    (checks : Bool) (n : ℤ) (rest : List TokKind)
    → negate checks n rest ≡ give (negate checks n []) rest
unfolding negate
negate-give checks n rest =
    if-give (int_eq n (negsuc (i64_half - 1)) && checks) panicked (folded (wrapping_neg n) []) rest

pub of_constant-give :
    (o : Option ℤ) (rest : List TokKind) → of_constant o rest ≡ give (of_constant o []) rest
of_constant-give none rest = refl
of_constant-give (some v) rest = refl

pub close_paren-give :
    (r : Folded) (rest : List TokKind) → and_then (give r (rparen ∷ rest)) close_paren ≡ give r rest
unfolding close_paren
close_paren-give (folded v ts) rest = refl
close_paren-give no_value rest = refl
close_paren-give panicked rest = refl
close_paren-give out_of_bounds rest = refl
close_paren-give out_of_fuel rest = refl

ends_product-atom : (ts : List TokKind) → ends_product ts ≡ true → ends_atom ts ≡ true
ends_product-atom (lparen ∷ ts) h = h
ends_product-atom [] h = h
ends_product-atom (_ ∷ ts) h = refl

ends_sum-product : (ts : List TokKind) → ends_sum ts ≡ true → ends_product ts ≡ true
ends_sum-product (plus ∷ ts) h = cc
ends_sum-product (minus ∷ ts) h = cc
ends_sum-product [] h = h
ends_sum-product (_ ∷ ts) h = h

pub factors-ends :
    (fs : Factors) (rest : List TokKind)
    → ends_product rest ≡ true
    → ends_atom (factors_tokens fs rest) ≡ true
unfolding factors_tokens
factors-ends no_factors rest h = ends_product-atom rest h
factors-ends (times a fs) rest h = refl
factors-ends (over a fs) rest h = refl
factors-ends (modulo a fs) rest h = refl

pub terms-ends :
    (ts : Terms) (rest : List TokKind)
    → ends_sum rest ≡ true
    → ends_product (terms_tokens ts rest) ≡ true
unfolding terms_tokens
terms-ends no_terms rest h = ends_sum-product rest h
terms-ends (more p ts) rest h = refl
terms-ends (less p ts) rest h = refl

module _ (checks : Bool) (consts : Table ℤ) (fns : Table FuncDecl) where
  pub muldiv_loop-stop :
      (f : ℕ) (v : ℤ) (ts : List TokKind)
      → ends_product ts ≡ true
      → muldiv_loop checks consts fns (suc f) v ts ≡ folded v ts
  unfolding muldiv_loop
  muldiv_loop-stop f v (star ∷ ts) h = cc
  muldiv_loop-stop f v (slash ∷ ts) h = cc
  muldiv_loop-stop f v (percent ∷ ts) h = cc
  muldiv_loop-stop f v [] h = cc
  muldiv_loop-stop f v (_ ∷ ts) h = refl

  pub addsub_loop-stop :
      (f : ℕ) (v : ℤ) (ts : List TokKind)
      → ends_sum ts ≡ true
      → addsub_loop checks consts fns (suc f) v ts ≡ folded v ts
  unfolding addsub_loop
  addsub_loop-stop f v (plus ∷ ts) h = cc
  addsub_loop-stop f v (minus ∷ ts) h = cc
  addsub_loop-stop f v [] h = cc
  addsub_loop-stop f v (_ ∷ ts) h = refl

  pub fold_atom-constant :
      (f : ℕ) (name : Bytes) (ts : List TokKind)
      → ends_atom ts ≡ true
      → fold_atom checks consts fns (suc f) (ident name ∷ ts) ≡ of_constant (get consts name) ts
  unfolding fold_atom
  fold_atom-constant f name (lparen ∷ ts) h = cc
  fold_atom-constant f name [] h = cc
  fold_atom-constant f name (_ ∷ ts) h = refl
