-- ===== src/Base/Int.antt =====
-- 64-bit signed integers, as the bit pattern of an unsigned one.
use Prim.Native.Nat.{ℕ, ◌-◌}
use maka.Base.Tests.{ltb, if◌then◌else◌}

-- `negsuc n` is -(n + 1).
pub data ℤ : Type 0 where
  pos : ℕ → ℤ
  negsuc : ℕ → ℤ

abbrev pub u64_mod : ℕ
u64_mod = 18446744073709551616

abbrev pub i64_half : ℕ
i64_half = 9223372036854775808

-- `u as i64`, for `u` below 2^64.
abbrev pub as_i64 : ℕ → ℤ
as_i64 u = if ltb u i64_half then pos u else negsuc (u64_mod - 1 - u)
