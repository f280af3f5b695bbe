-- ===== src/Common/Int.antt =====
-- Signed integers over the native numbers, and the value of an `int64` bit pattern.
use Prim.Native.Nat.{ℕ, ◌-◌}
use goteth.Common.Tests.{ltb, leb, if◌then◌else◌}
use goteth.Common.Words.{u64_mod}

-- `negsuc n` is -(n + 1).
pub data ℤ : Type 0 where
  pos : ℕ → ℤ
  negsuc : ℕ → ℤ

-- a - b, as an integer.
abbrev pub sub_ℕ : ℕ → ℕ → ℤ
sub_ℕ a b = if leb b a then pos (a - b) else negsuc (b - a - 1)

abbrev pub i64_min_bits : ℕ
i64_min_bits = 9223372036854775808

-- Two's complement.
abbrev pub int64_value : ℕ → ℤ
int64_value bits = if ltb bits i64_min_bits then pos bits else negsuc (u64_mod - bits - 1)
