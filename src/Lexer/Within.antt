-- ===== src/Lexer/Within.antt =====
-- crates/lexer/src/lib.rs: postconditions on a result of the lexer, with a rule for each step.
use maka.Base.{Bool, true, false, ◌≡◌, ◌≢◌, refl, subst, if◌then◌else◌}
use maka.Lexer.Token.{LexError, Result, ok, err, panicked, out_of_fuel, ◌>>=◌}

-- The run kept within its fuel; `P` holds of its value and `E` of its error.
pub data Within {ℓ κ} {A : Type ℓ} (P : A → Type κ) (E : LexError → Type κ)
    : Result A → Type (ℓ ⊔ κ) where
  returns : {a : A} → P a → Within P E (ok a)
  fails : {e : LexError} → E e → Within P E (err e)
  panics : Within P E panicked

module _ {ℓ κ} {A : Type ℓ} {P : A → Type κ} {E : LexError → Type κ} where
  pub Within-ok : {r : Result A} {a : A} → Within P E r → r ≡ ok a → P a
  Within-ok (returns h) e = subst P (cc) h
  Within-ok (fails h) e = cc
  Within-ok panics e = cc

  pub Within-err : {r : Result A} {x : LexError} → Within P E r → r ≡ err x → E x
  Within-err (returns h) e = cc
  Within-err (fails h) e = subst E (cc) h
  Within-err panics e = cc

  pub Within-ne-out_of_fuel : {r : Result A} → Within P E r → r ≢ out_of_fuel
  Within-ne-out_of_fuel (returns h) = cc
  Within-ne-out_of_fuel (fails h) = cc
  Within-ne-out_of_fuel panics = cc

  pub Within-if :
      (b : Bool) {x y : Result A}
      → (b ≡ true → Within P E x)
      → (b ≡ false → Within P E y)
      → Within P E (if b then x else y)
  Within-if true hx hy = hx refl
  Within-if false hx hy = hy refl

  pub Within-bind {ℓ'} :
      {B : Type ℓ'} {Q : B → Type κ} {r : Result A} {f : A → Result B}
      → Within P E r
      → ((a : A) → P a → Within Q E (f a))
      → Within Q E (r >>= f)
  Within-bind (returns {a} h) k = k a h
  Within-bind (fails h) k = fails h
  Within-bind panics k = panics

  pub Within-mono {κ'} :
      {Q : A → Type κ'} {D : LexError → Type κ'} {r : Result A}
      → Within P E r
      → ((a : A) → P a → Q a)
      → ((e : LexError) → E e → D e)
      → Within Q D r
  Within-mono (returns {a} h) k j = returns (k a h)
  Within-mono (fails {e} h) k j = fails (j e h)
  Within-mono panics k j = panics
