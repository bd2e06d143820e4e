-- ===== src/Ctfe/Grows.antt =====
-- crates/parser/src/lib.rs: a step of the interpreter beside the same step with more fuel and more
-- budget, with a rule for each way to make a step.
use maka.Base.{
  ℕ, zero, suc, ◌+◌, ◌≡◌, ◌≢◌, refl, Bool, true, false, Option, none, some, if◌then◌else◌, arith,
}
use maka.Base.Int.{ℤ}
use maka.Ctfe.Outcome.{
  Outcome, done, no_value, panicked, out_of_fuel, bind, CtFlow, normal, break, continue, return,
}

-- The second has the value of the first, and a budget that is larger by `k`; it goes on where the
-- first has no fuel, or no budget.
pub data Grows {ℓ} {A : Type ℓ} (k : ℕ) : Outcome A → Outcome A → Type ℓ where
  value : {a : A} {b c : ℕ} → c ≡ b + k → Grows k (done a b) (done a c)
  none_same : Grows k no_value no_value
  panic_same : Grows k panicked panicked
  more_fuel : {r : Outcome A} → Grows k out_of_fuel r
  more_budget : {r : Outcome A} → k ≢ 0 → Grows k no_value r

pub Grows-bind {ℓ κ} :
    {A : Type ℓ} {B : Type κ} {k : ℕ} {r s : Outcome A} {f g : A → ℕ → Outcome B}
    → Grows k r s
    → ((a : A) (b c : ℕ) → c ≡ b + k → Grows k (f a b) (g a c))
    → Grows k (bind r f) (bind s g)
Grows-bind (value {a} {b} {c} e) j = j a b c e
Grows-bind none_same j = none_same
Grows-bind panic_same j = panic_same
Grows-bind more_fuel j = more_fuel
Grows-bind (more_budget h) j = more_budget h

module _ {ℓ} {A : Type ℓ} {k : ℕ} where
  pub Grows-if :
      (t : Bool) {x y z w : Outcome A}
      → Grows k x z
      → Grows k y w
      → Grows k (if t then x else y) (if t then z else w)
  Grows-if true h j = h
  Grows-if false h j = j

  pub Grows-test :
      (t : Bool) {x y z w : Outcome A}
      → Grows k x z
      → Grows k y w
      → Grows k (elim t [ true ↦ x | false ↦ y ]) (elim t [ true ↦ z | false ↦ w ])
  Grows-test true h j = h
  Grows-test false h j = j

  pub Grows-option {κ} :
      {B : Type κ} (o : Option B) {x z : Outcome A} {f g : B → Outcome A}
      → Grows k x z
      → ((d : B) → Grows k (f d) (g d))
      → Grows k (elim o [ none ↦ x | some d ↦ f d ]) (elim o [ none ↦ z | some d ↦ g d ])
  Grows-option none h j = h
  Grows-option (some d) h j = j d

  pub Grows-budget :
      (b c : ℕ) {f g : ℕ → Outcome A}
      → c ≡ b + k
      → ((b' c' : ℕ) → c' ≡ b' + k → Grows k (f b') (g c'))
      → Grows k
          (elim b [ zero ↦ no_value | suc b' ↦ f b' ])
          (elim c [ zero ↦ no_value | suc c' ↦ g c' ])
  Grows-budget zero zero e j = none_same
  Grows-budget zero (suc c) e j = more_budget (omega arith)
  Grows-budget (suc b) zero e j = absurd (omega arith)
  Grows-budget (suc b) (suc c) e j = j b c (omega arith)

  pub Grows-flow :
      (flow : CtFlow) {x y z x' y' z' : Outcome A} {f g : ℤ → Outcome A}
      → Grows k x x'
      → Grows k y y'
      → Grows k z z'
      → ((v : ℤ) → Grows k (f v) (g v))
      → Grows k
          (elim flow [ normal ↦ x | break ↦ y | continue ↦ z | return v ↦ f v ])
          (elim flow [ normal ↦ x' | break ↦ y' | continue ↦ z' | return v ↦ g v ])
  Grows-flow normal hx hy hz hk = hx
  Grows-flow break hx hy hz hk = hy
  Grows-flow continue hx hy hz hk = hz
  Grows-flow (return v) hx hy hz hk = hk v

  pub Grows-done : {a : A} {b : ℕ} {s : Outcome A} → Grows k (done a b) s → s ≡ done a (b + k)
  Grows-done (value e) = cc

  pub Grows-panicked : {s : Outcome A} → Grows k panicked s → s ≡ panicked
  Grows-panicked panic_same = refl

pub Grows-same {ℓ} : {A : Type ℓ} {r s : Outcome A} → Grows 0 r s → r ≢ out_of_fuel → s ≡ r
Grows-same (value {b} {c} e) h = let f : c ≡ b = omega arith in cc
Grows-same none_same h = refl
Grows-same panic_same h = refl
Grows-same more_fuel h = absurd (h refl)
Grows-same (more_budget h) j = absurd (h refl)
