-- ===== src/Ctfe/Costs.antt =====
-- crates/parser/src/lib.rs: the fuel of `try_fold_int` and the tokens of an expression.
use maka.Base.{◌+◌, ◌*◌, ◌≤◌, true, false, List, ◌∷◌, length, arith}
use maka.Ctfe.Sums.{
  Atom, number, truth, letter, constant, negative, paren, Product, product, Factors, no_factors,
  times, over, modulo, Sum, sum, Terms, no_terms, more, less, atom_tokens, product_tokens,
  factors_tokens, sum_tokens, terms_tokens, atom_cost, product_cost, factors_cost, sum_cost,
  terms_cost,
}
use maka.Lexer.Token.{TokKind, rparen}

mutual
  unfolding atom_tokens product_tokens factors_tokens sum_tokens terms_tokens atom_cost product_cost
      factors_cost sum_cost terms_cost

  atom_cost-le :
      (a : Atom) (rest : List TokKind)
      → atom_cost a + 5 * length rest + 4 ≤ 5 * length (atom_tokens a rest)
  atom_cost-le (number n) rest = omega arith
  atom_cost-le (truth true) rest = omega arith
  atom_cost-le (truth false) rest = omega arith
  atom_cost-le (letter c) rest = omega arith
  atom_cost-le (constant name) rest = omega arith
  atom_cost-le (negative a) rest = omega (arith, atom_cost-le a rest)
  atom_cost-le (paren s) rest = omega (arith, sum_cost-le s (rparen ∷ rest))

  product_cost-le :
      (p : Product) (rest : List TokKind)
      → product_cost p + 5 * length rest + 2 ≤ 5 * length (product_tokens p rest)
  product_cost-le (product a fs) rest =
      omega (arith, atom_cost-le a (factors_tokens fs rest), factors_cost-le fs rest)

  factors_cost-le :
      (fs : Factors) (rest : List TokKind)
      → factors_cost fs + 5 * length rest ≤ 5 * length (factors_tokens fs rest) + 1
  factors_cost-le no_factors rest = omega arith
  factors_cost-le (times a fs) rest =
      omega (arith, atom_cost-le a (factors_tokens fs rest), factors_cost-le fs rest)
  factors_cost-le (over a fs) rest =
      omega (arith, atom_cost-le a (factors_tokens fs rest), factors_cost-le fs rest)
  factors_cost-le (modulo a fs) rest =
      omega (arith, atom_cost-le a (factors_tokens fs rest), factors_cost-le fs rest)

  pub sum_cost-le :
      (s : Sum) (rest : List TokKind)
      → sum_cost s + 5 * length rest ≤ 5 * length (sum_tokens s rest)
  sum_cost-le (sum p ts) rest =
      omega (arith, product_cost-le p (terms_tokens ts rest), terms_cost-le ts rest)

  terms_cost-le :
      (ts : Terms) (rest : List TokKind)
      → terms_cost ts + 5 * length rest ≤ 5 * length (terms_tokens ts rest) + 1
  terms_cost-le no_terms rest = omega arith
  terms_cost-le (more p ts) rest =
      omega (arith, product_cost-le p (terms_tokens ts rest), terms_cost-le ts rest)
  terms_cost-le (less p ts) rest =
      omega (arith, product_cost-le p (terms_tokens ts rest), terms_cost-le ts rest)
