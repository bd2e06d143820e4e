-- ===== src/Ctfe/Outcome.antt =====
-- crates/parser/src/lib.rs: what a step of the interpreter gives, and its environment.
use maka.Base.{ℕ, List, [], ◌∷◌, Option, none, some, Bytes, bytes_eq, if◌then◌else◌}
use maka.Base.Int.{ℤ}

-- `Option` with the budget that is left. `panicked` is a panic of the arithmetic; `out_of_fuel` has
-- no counterpart in the program.
pub data Outcome {ℓ} (A : Type ℓ) : Type ℓ where
  done : A → ℕ → Outcome A
  no_value panicked out_of_fuel : Outcome A

abbrev pub bind {ℓ κ} : {A : Type ℓ} {B : Type κ} → Outcome A → (A → ℕ → Outcome B) → Outcome B
bind (done a b) k = k a b
bind no_value k = no_value
bind panicked k = panicked
bind out_of_fuel k = out_of_fuel

-- What a statement does to the flow of control.
pub data CtFlow : Type 0 where
  normal break continue : CtFlow
  return : ℤ → CtFlow

-- A `HashMap<String, V>`: the first entry of a name counts.
abbrev pub Table : Type 0 → Type 0
Table V = List (Bytes × V)

abbrev pub Env : Type 0
Env = Table ℤ

unfoldable pub get : {V : Type 0} → Table V → Bytes → Option V
unfolding bytes_eq
get [] name = none
get ((k, v) ∷ rest) name = if bytes_eq k name then some v else get rest name

abbrev pub insert : {V : Type 0} → Bytes → V → Table V → Table V
insert name v t = (name, v) ∷ t
