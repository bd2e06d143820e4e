-- ===== src/Ctfe/Sums.antt =====
-- crates/parser/src/lib.rs: the constant expressions that `fold_addsub` folds, their tokens and values.
use maka.Base.{ℕ, suc, ◌+◌, Bool, true, false, List, [], ◌∷◌, Bytes}
use maka.Base.Int.{ℤ, pos}
use maka.Ctfe.Fold.{Folded, folded, and_then, divide, negate, of_constant}
use maka.Ctfe.Outcome.{Table, get}
use maka.Ctfe.Word.{wrapping_add, wrapping_sub, wrapping_mul, int_div, int_rem}
use maka.Lexer.Token.{
  TokKind, int, true_kw, false_kw, char_lit, minus, plus, star, slash, percent, lparen, rparen,
  ident,
}

-- The grammar: a sum of products of atoms. A tail is what follows the first operand.
mutual
  pub data Atom : Type 0 where
    number : ℤ → Atom
    truth : Bool → Atom
    letter : ℕ → Atom
    constant : Bytes → Atom
    negative : Atom → Atom
    paren : Sum → Atom

  pub data Product : Type 0 where
    product : Atom → Factors → Product

  pub data Factors : Type 0 where
    no_factors : Factors
    times over modulo : Atom → Factors → Factors

  pub data Sum : Type 0 where
    sum : Product → Terms → Sum

  pub data Terms : Type 0 where
    no_terms : Terms
    more less : Product → Terms → Terms

-- The tokens of an expression, in front of `rest`.
unfoldable mutual
  pub atom_tokens : Atom → List TokKind → List TokKind
  atom_tokens (number n) rest = int n ∷ rest
  atom_tokens (truth true) rest = true_kw ∷ rest
  atom_tokens (truth false) rest = false_kw ∷ rest
  atom_tokens (letter c) rest = char_lit c ∷ rest
  atom_tokens (constant name) rest = ident name ∷ rest
  atom_tokens (negative a) rest = minus ∷ atom_tokens a rest
  atom_tokens (paren s) rest = lparen ∷ sum_tokens s (rparen ∷ rest)

  pub product_tokens : Product → List TokKind → List TokKind
  product_tokens (product a fs) rest = atom_tokens a (factors_tokens fs rest)

  pub factors_tokens : Factors → List TokKind → List TokKind
  factors_tokens no_factors rest = rest
  factors_tokens (times a fs) rest = star ∷ atom_tokens a (factors_tokens fs rest)
  factors_tokens (over a fs) rest = slash ∷ atom_tokens a (factors_tokens fs rest)
  factors_tokens (modulo a fs) rest = percent ∷ atom_tokens a (factors_tokens fs rest)

  pub sum_tokens : Sum → List TokKind → List TokKind
  sum_tokens (sum p ts) rest = product_tokens p (terms_tokens ts rest)

  pub terms_tokens : Terms → List TokKind → List TokKind
  terms_tokens no_terms rest = rest
  terms_tokens (more p ts) rest = plus ∷ product_tokens p (terms_tokens ts rest)
  terms_tokens (less p ts) rest = minus ∷ product_tokens p (terms_tokens ts rest)

-- A value, with no tokens behind it.
abbrev pub valued : ℤ → Folded
valued v = folded v []

-- The value: products before sums, operators of one level from the left.
module _ (overflow_checks : Bool) (consts : Table ℤ) where
  unfoldable mutual
    pub atom_value : Atom → Folded
    atom_value (number n) = valued n
    atom_value (truth true) = valued (pos 1)
    atom_value (truth false) = valued (pos 0)
    atom_value (letter c) = valued (pos c)
    atom_value (constant name) = of_constant (get consts name) []
    atom_value (negative a) = and_then (atom_value a) (λ v ts. negate overflow_checks v [])
    atom_value (paren s) = sum_value s

    pub product_value : Product → Folded
    product_value (product a fs) = and_then (atom_value a) (λ v ts. factors_value v fs)

    pub factors_value : ℤ → Factors → Folded
    factors_value v no_factors = valued v
    factors_value v (times a fs) =
        and_then (atom_value a) (λ w ts. factors_value (wrapping_mul v w) fs)
    factors_value v (over a fs) =
        and_then (atom_value a)
          (λ w ts. and_then (divide int_div v w []) (λ q us. factors_value q fs))
    factors_value v (modulo a fs) =
        and_then (atom_value a)
          (λ w ts. and_then (divide int_rem v w []) (λ q us. factors_value q fs))

    pub sum_value : Sum → Folded
    sum_value (sum p ts) = and_then (product_value p) (λ v us. terms_value v ts)

    pub terms_value : ℤ → Terms → Folded
    terms_value v no_terms = valued v
    terms_value v (more p ts) =
        and_then (product_value p) (λ w us. terms_value (wrapping_add v w) ts)
    terms_value v (less p ts) =
        and_then (product_value p) (λ w us. terms_value (wrapping_sub v w) ts)

-- A fuel that is enough to fold an expression.
unfoldable mutual
  pub atom_cost : Atom → ℕ
  atom_cost (negative a) = suc (atom_cost a)
  atom_cost (paren s) = suc (sum_cost s)
  atom_cost _ = 1

  pub product_cost : Product → ℕ
  product_cost (product a fs) = suc (atom_cost a + factors_cost fs)

  pub factors_cost : Factors → ℕ
  factors_cost no_factors = 1
  factors_cost (times a fs) = suc (atom_cost a + factors_cost fs)
  factors_cost (over a fs) = suc (atom_cost a + factors_cost fs)
  factors_cost (modulo a fs) = suc (atom_cost a + factors_cost fs)

  pub sum_cost : Sum → ℕ
  sum_cost (sum p ts) = suc (product_cost p + terms_cost ts)

  pub terms_cost : Terms → ℕ
  terms_cost no_terms = 1
  terms_cost (more p ts) = suc (product_cost p + terms_cost ts)
  terms_cost (less p ts) = suc (product_cost p + terms_cost ts)

-- What may follow an atom, a product and a sum; the source ends with a token of its own.
abbrev pub ends_atom : List TokKind → Bool
ends_atom [] = false
ends_atom (lparen ∷ _) = false
ends_atom _ = true

abbrev pub ends_product : List TokKind → Bool
ends_product [] = false
ends_product (lparen ∷ _) = false
ends_product (star ∷ _) = false
ends_product (slash ∷ _) = false
ends_product (percent ∷ _) = false
ends_product _ = true

abbrev pub ends_sum : List TokKind → Bool
ends_sum (plus ∷ _) = false
ends_sum (minus ∷ _) = false
ends_sum ts = ends_product ts
