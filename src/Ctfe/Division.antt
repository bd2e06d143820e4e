-- ===== src/Ctfe/Division.antt =====
-- crates/parser/src/lib.rs: the divisions of the interpreter, and the bit patterns of its integers.
use maka.Base.{ℕ, ◌-◌, ◌%◌, ◌<◌, ◌≡◌, ◌↔◌, refl, Bool, true, false, if◌then◌else◌, and_iff, arith}
use maka.Base.Int.{ℤ, pos, negsuc, as_i64, u64_mod, i64_half}
use maka.Ast.Types.{div, mod_op, div_assign, mod_assign}
use maka.Ctfe.Outcome.{done, no_value, panicked}
use maka.Ctfe.Steps.{checked, bin_value, assign_value}
use maka.Ctfe.Word.{as_u64, is_zero, int_eq, div_overflows, int_div, int_rem}

pub int_eq_iff : (a b : ℤ) → (int_eq a b ≡ true) ↔ (a ≡ b)
unfolding int_eq
int_eq_iff (pos a) (pos b) = ground arith
int_eq_iff (pos a) (negsuc b) = ((λ h. cc), (λ h. cc))
int_eq_iff (negsuc a) (pos b) = ((λ h. cc), (λ h. cc))
int_eq_iff (negsuc a) (negsuc b) = ground arith

-- `i64::MIN` and -1.
abbrev pub IsOverflow : ℤ → ℤ → Type 0
IsOverflow l r = (l ≡ negsuc (i64_half - 1)) × (r ≡ negsuc 0)

div_overflows_iff : (l r : ℤ) → (div_overflows l r ≡ true) ↔ IsOverflow l r
unfolding div_overflows
div_overflows_iff l r =
    let hl = int_eq_iff l (negsuc (i64_half - 1)) in
    let hr = int_eq_iff r (negsuc 0) in and_iff hl hr

panic_test :
    (s t : Bool) (v : ℤ) (b : ℕ)
    → (if s then no_value else if t then panicked else done v b) ≡ panicked
    → t ≡ true
panic_test true t v b e = cc
panic_test false true v b e = refl
panic_test false false v b e = cc

test_panic :
    (s t : Bool) (v : ℤ) (b : ℕ)
    → s ≡ false
    → t ≡ true
    → (if s then no_value else if t then panicked else done v b) ≡ panicked
test_panic true t v b e h = cc
test_panic false true v b e h = refl
test_panic false false v b e h = cc

checked-panicked :
    (op : ℤ → ℤ → ℤ) (l r : ℤ) (b : ℕ) → (checked op l r b ≡ panicked) ↔ IsOverflow l r
unfolding checked
checked-panicked op l r b =
    let o = div_overflows_iff l r in
    (
      (λ e. o.0 (panic_test (is_zero r) (div_overflows l r) (op l r) b e)),
      (λ h. test_panic (is_zero r) (div_overflows l r) (op l r) b (rw (h.1) refl) (o.1 h)),
    )

-- A number that an `i64` can hold.
abbrev pub InRange : ℤ → Type 0
InRange (pos n) = n < i64_half
InRange (negsuc n) = n < i64_half

as_i64-as_u64 : (a : ℤ) → InRange a → as_i64 (as_u64 a) ≡ a
unfolding as_u64
as_i64-as_u64 (pos n) h = (let m : n % u64_mod ≡ n = omega arith in rw m (ground arith))
as_i64-as_u64 (negsuc n) h = (let m : n % u64_mod ≡ n = omega arith in rw m (ground arith))

as_u64-as_i64 : (u : ℕ) → u < u64_mod → as_u64 (as_i64 u) ≡ u
unfolding as_u64
as_u64-as_i64 u h = ground arith

-- Of `/`, `%`, `/=` and `%=`, with the operands `l` and `r`, each panics exactly when `l` is `i64::MIN`
-- and `r` is -1.
pub division-panicked :
    (l r : ℤ) (b : ℕ)
    → ((bin_value div l r b ≡ panicked) ↔ IsOverflow l r)
      × ((bin_value mod_op l r b ≡ panicked) ↔ IsOverflow l r)
      × ((assign_value div_assign l r b ≡ panicked) ↔ IsOverflow l r)
      × ((assign_value mod_assign l r b ≡ panicked) ↔ IsOverflow l r)
unfolding bin_value assign_value
division-panicked l r b = (
  checked-panicked int_div l r b,
  checked-panicked int_rem l r b,
  checked-panicked int_div l r b,
  checked-panicked int_rem l r b,
)
