-- ===== src/Ctfe/Word.antt =====
-- The operations on `i64` that crates/parser/src/lib.rs uses in `ct_stmt` and `ct_expr`. An `i64`
-- is an integer; its bit pattern is a number below 2^64.
use Prim.Native.Nat.{bit_and, bit_or, bit_xor}
use maka.Base.{ℕ, zero, suc, ◌+◌, ◌-◌, ◌*◌, ◌/◌, ◌%◌, ◌^◌, Bool, true, false, ◌&&◌, ◌==◌, ltb}
use maka.Base.Int.{ℤ, pos, negsuc, as_i64, u64_mod, i64_half}

-- `a as u64`.
unfoldable pub as_u64 : ℤ → ℕ
as_u64 (pos n) = n % u64_mod
as_u64 (negsuc n) = u64_mod - 1 - n % u64_mod

unfoldable pub wrapping_add : ℤ → ℤ → ℤ
unfolding as_u64
wrapping_add a b = as_i64 ((as_u64 a + as_u64 b) % u64_mod)

unfoldable pub wrapping_sub : ℤ → ℤ → ℤ
unfolding as_u64
wrapping_sub a b = as_i64 ((as_u64 a + (u64_mod - as_u64 b)) % u64_mod)

unfoldable pub wrapping_mul : ℤ → ℤ → ℤ
unfolding as_u64
wrapping_mul a b = as_i64 ((as_u64 a * as_u64 b) % u64_mod)

unfoldable pub wrapping_neg : ℤ → ℤ
unfolding as_u64
wrapping_neg a = as_i64 ((u64_mod - as_u64 a) % u64_mod)

unfoldable pub bit_not : ℤ → ℤ
unfolding as_u64
bit_not a = as_i64 (u64_mod - 1 - as_u64 a)

unfoldable pub int_and : ℤ → ℤ → ℤ
unfolding as_u64
int_and a b = as_i64 (bit_and (as_u64 a) (as_u64 b))

unfoldable pub int_or : ℤ → ℤ → ℤ
unfolding as_u64
int_or a b = as_i64 (bit_or (as_u64 a) (as_u64 b))

unfoldable pub int_xor : ℤ → ℤ → ℤ
unfolding as_u64
int_xor a b = as_i64 (bit_xor (as_u64 a) (as_u64 b))

-- `wrapping_shl(r as u32)` and `wrapping_shr(r as u32)`: the amount is taken modulo 64, and a shift
-- to the right keeps the sign.
unfoldable pub wrapping_shl : ℤ → ℤ → ℤ
unfolding as_u64
wrapping_shl a r = as_i64 ((as_u64 a * 2 ^ (as_u64 r % 64)) % u64_mod)

unfoldable pub wrapping_shr : ℤ → ℤ → ℤ
unfolding as_u64
wrapping_shr (pos n) r = pos (n / 2 ^ (as_u64 r % 64))
wrapping_shr (negsuc n) r = negsuc (n / 2 ^ (as_u64 r % 64))

unfoldable pub int_eq : ℤ → ℤ → Bool
int_eq (pos a) (pos b) = a == b
int_eq (negsuc a) (negsuc b) = a == b
int_eq _ _ = false

unfoldable pub int_lt : ℤ → ℤ → Bool
int_lt (pos a) (pos b) = ltb a b
int_lt (pos a) (negsuc b) = false
int_lt (negsuc a) (pos b) = true
int_lt (negsuc a) (negsuc b) = ltb b a

abbrev pub is_zero : ℤ → Bool
is_zero a = int_eq a (pos 0)

-- -n.
abbrev neg_of : ℕ → ℤ
neg_of zero = pos zero
neg_of (suc n) = negsuc n

-- `a / b` and `a % b` where they do not overflow, for `b` not 0: they round towards 0.
unfoldable pub int_div : ℤ → ℤ → ℤ
int_div (pos a) (pos b) = pos (a / b)
int_div (pos a) (negsuc b) = neg_of (a / suc b)
int_div (negsuc a) (pos b) = neg_of (suc a / b)
int_div (negsuc a) (negsuc b) = pos (suc a / suc b)

unfoldable pub int_rem : ℤ → ℤ → ℤ
int_rem (pos a) (pos b) = pos (a % b)
int_rem (pos a) (negsuc b) = pos (a % suc b)
int_rem (negsuc a) (pos b) = neg_of (suc a % b)
int_rem (negsuc a) (negsuc b) = neg_of (suc a % suc b)

-- The one quotient that does not fit: `i64::MIN / -1`.
unfoldable pub div_overflows : ℤ → ℤ → Bool
unfolding int_eq
div_overflows a b = int_eq a (negsuc (i64_half - 1)) && int_eq b (negsuc 0)
