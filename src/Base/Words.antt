-- ===== src/Base/Words.antt =====
-- Go's `int64` as the 64 bits that hold it, with its wrap-around.
use Prim.Native.Nat.{ℕ, ◌+◌, ◌-◌, ◌*◌, ◌/◌, ◌%◌, ◌^◌}
use mathlib.Core.Bool.{Bool}
use story.Base.Tests.{ltb, leb, if◌then◌else◌, u64_mod}

unfoldable pub add_int64 : ℕ → ℕ → ℕ
add_int64 a b = (a + b) % u64_mod

unfoldable pub mul_int64 : ℕ → ℕ → ℕ
mul_int64 a b = (a * b) % u64_mod

-- The quotient by a positive number is rounded towards zero.
unfoldable pub quo_int64 : ℕ → ℕ → ℕ
quo_int64 a n = if ltb a (2 ^ 63) then a / n else (u64_mod - (u64_mod - a) / n) % u64_mod

-- The order of the signed values: the sign bit is flipped.
unfoldable pub le_int64 : ℕ → ℕ → Bool
le_int64 a b = leb ((a + 2 ^ 63) % u64_mod) ((b + 2 ^ 63) % u64_mod)

unfoldable pub sub_int64 : ℕ → ℕ → ℕ
sub_int64 a b = (a + (u64_mod - b)) % u64_mod
