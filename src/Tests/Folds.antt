-- ===== src/Tests/Folds.antt =====
-- The theorems on constant folding at a concrete initializer.
use maka.Base.{[], ◌∷◌, ◌≡◌, ◌≢◌, refl, true, codes}
use maka.Base.Int.{ℤ, pos}
use maka.Ctfe.Fold.{folded, out_of_bounds, out_of_fuel, try_fold_int}
use maka.Ctfe.InBounds.{last, more as further, try_fold_int-ne-out_of_bounds}
use maka.Ctfe.Give.{give}
use maka.Ctfe.Precedence.{try_fold_int-sum}
use maka.Ctfe.Shrinks.{Shrinks, try_fold_int-ends}
use maka.Ctfe.Sums.{
  number, constant, paren, product, no_factors, times, Sum, sum, no_terms, more, less, sum_tokens,
  sum_value,
}
use maka.Ctfe.Outcome.{Table}
use maka.Lexer.Token.{int, plus, eof, semicolon}

abbrev constants : Table ℤ
constants = (codes "N", pos 4) ∷ []

-- `2 + 3 * (N - 1)`.
abbrev expression : Sum
expression = sum (product (number (pos 2)) no_factors) (
    more
      (product (number (pos 3)) (
        times
          (paren (
            sum (product (constant (codes "N")) no_factors)
              (less (product (number (pos 1)) no_factors) no_terms)))
          no_factors))
      no_terms)

try_fold_int-sum_example :
    try_fold_int true constants [] (sum_tokens expression (semicolon ∷ []))
    ≡ give (sum_value true constants expression) (semicolon ∷ [])
try_fold_int-sum_example = try_fold_int-sum true constants [] expression (semicolon ∷ []) refl

expression-folded :
    try_fold_int true constants [] (sum_tokens expression (semicolon ∷ []))
    ≡ folded (pos 11) (semicolon ∷ [])
unfolding try_fold_int sum_tokens
expression-folded = refl

try_fold_int-ends_example :
    Shrinks 2 (try_fold_int true constants [] (plus ∷ int (pos 1) ∷ []))
    × (try_fold_int true constants [] (plus ∷ int (pos 1) ∷ []) ≢ out_of_fuel)
try_fold_int-ends_example = try_fold_int-ends true constants [] (plus ∷ int (pos 1) ∷ [])

try_fold_int-ne-out_of_bounds_example :
    try_fold_int true constants [] (int (pos 2) ∷ plus ∷ eof ∷ []) ≢ out_of_bounds
try_fold_int-ne-out_of_bounds_example =
    try_fold_int-ne-out_of_bounds true constants [] (int (pos 2) ∷ plus ∷ eof ∷ [])
      (further (further (last refl)))
