-- ===== src/Ctfe/Left.antt =====
-- crates/parser/src/lib.rs: a postcondition on a step of the interpreter, with a rule for each way to
-- make one.
use maka.Base.{
  ℕ, zero, suc, ◌≤◌, ◌<◌, ◌≡◌, ◌≢◌, refl, Option, none, some, Bool, true, false, if◌then◌else◌,
  arith,
}
use maka.Base.Int.{ℤ}
use maka.Ctfe.Outcome.{
  Outcome, done, no_value, panicked, out_of_fuel, bind, CtFlow, normal, break, continue, return,
}

-- The step kept within its fuel, and its budget is below `n` where it has a value.
pub data Left {ℓ} {A : Type ℓ} (n : ℕ) : Outcome A → Type ℓ where
  leaves : {a : A} {b : ℕ} → b < n → Left n (done a b)
  has_none : Left n no_value
  panics : Left n panicked

pub Left-ne-out_of_fuel {ℓ} : {A : Type ℓ} {n : ℕ} {r : Outcome A} → Left n r → r ≢ out_of_fuel
Left-ne-out_of_fuel (leaves h) = cc
Left-ne-out_of_fuel has_none = cc
Left-ne-out_of_fuel panics = cc

pub Left-bind {ℓ κ} :
    {A : Type ℓ} {B : Type κ} {n m : ℕ} {r : Outcome A} {k : A → ℕ → Outcome B}
    → Left n r
    → ((a : A) (b : ℕ) → b < n → Left m (k a b))
    → Left m (bind r k)
Left-bind (leaves {a} {b} h) j = j a b h
Left-bind has_none j = has_none
Left-bind panics j = panics

pub Left-mono {ℓ} : {A : Type ℓ} {n m : ℕ} {r : Outcome A} → Left n r → n ≤ m → Left m r
Left-mono (leaves h) le = leaves (omega arith)
Left-mono has_none le = has_none
Left-mono panics le = panics

module _ {ℓ} {A : Type ℓ} {n : ℕ} where
  pub Left-if : (t : Bool) {x y : Outcome A} → Left n x → Left n y → Left n (if t then x else y)
  Left-if true hx hy = hx
  Left-if false hx hy = hy

  pub Left-test :
      (t : Bool) {x y : Outcome A} → Left n x → Left n y → Left n (elim t [ true ↦ x | false ↦ y ])
  Left-test true hx hy = hx
  Left-test false hx hy = hy

  pub Left-option {κ} :
      {B : Type κ} (o : Option B) {x : Outcome A} {k : B → Outcome A}
      → Left n x
      → ((d : B) → Left n (k d))
      → Left n (elim o [ none ↦ x | some d ↦ k d ])
  Left-option none hx hk = hx
  Left-option (some d) hx hk = hk d

  pub Left-budget :
      (b : ℕ) {x : Outcome A} {k : ℕ → Outcome A}
      → Left n x
      → ((c : ℕ) → b ≡ suc c → Left n (k c))
      → Left n (elim b [ zero ↦ x | suc c ↦ k c ])
  Left-budget zero hx hk = hx
  Left-budget (suc c) hx hk = hk c refl

  pub Left-flow :
      (flow : CtFlow) {x y z : Outcome A} {k : ℤ → Outcome A}
      → Left n x
      → Left n y
      → Left n z
      → ((v : ℤ) → Left n (k v))
      → Left n (elim flow [ normal ↦ x | break ↦ y | continue ↦ z | return v ↦ k v ])
  Left-flow normal hx hy hz hk = hx
  Left-flow break hx hy hz hk = hy
  Left-flow continue hx hy hz hk = hz
  Left-flow (return v) hx hy hz hk = hk v
