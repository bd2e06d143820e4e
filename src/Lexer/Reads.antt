-- ===== src/Lexer/Reads.antt =====
-- crates/lexer/src/lib.rs: postconditions on a result of the lexer that is no panic, with a rule for
-- each step.
use maka.Base.{Bool, true, false, ◌≡◌, refl, if◌then◌else◌}
use maka.Lexer.Token.{LexError, Result, ok, err, ◌>>=◌}
use maka.Lexer.Within.{Within, returns as within_returns, fails as within_fails}

-- The run ended without a panic; `P` holds of its value and `E` of its error.
pub data Reads {ℓ κ} {A : Type ℓ} (P : A → Type κ) (E : LexError → Type κ)
    : Result A → Type (ℓ ⊔ κ) where
  returns : {a : A} → P a → Reads P E (ok a)
  fails : {e : LexError} → E e → Reads P E (err e)

module _ {ℓ κ} {A : Type ℓ} {P : A → Type κ} {E : LexError → Type κ} where
  pub Reads-Within : {r : Result A} → Reads P E r → Within P E r
  Reads-Within (returns h) = within_returns h
  Reads-Within (fails h) = within_fails h

  pub Reads-if :
      (b : Bool) {x y : Result A}
      → (b ≡ true → Reads P E x)
      → (b ≡ false → Reads P E y)
      → Reads P E (if b then x else y)
  Reads-if true hx hy = hx refl
  Reads-if false hx hy = hy refl

  pub Reads-bind {ℓ'} :
      {B : Type ℓ'} {Q : B → Type κ} {r : Result A} {f : A → Result B}
      → Reads P E r
      → ((a : A) → P a → Reads Q E (f a))
      → Reads Q E (r >>= f)
  Reads-bind (returns {a} h) k = k a h
  Reads-bind (fails h) k = fails h

  pub Reads-mono {κ'} :
      {Q : A → Type κ'} {D : LexError → Type κ'} {r : Result A}
      → Reads P E r
      → ((a : A) → P a → Q a)
      → ((e : LexError) → E e → D e)
      → Reads Q D r
  Reads-mono (returns {a} h) k j = returns (k a h)
  Reads-mono (fails {e} h) k j = fails (j e h)
