-- ===== src/Prelude/Int.antt =====
-- Signed integers over the native numbers, under the library's names.
use Prim.Native.Nat.{ℕ, suc, ◌+◌, ◌-◌, ◌/◌}
use mathlib.Core.Path.{◌≡◌}
use mathlib.Core.Bool.{Bool}
use native.Mathlib.Omega.{arith}
use pico_dualcore.Prelude.Tests.{leb, if◌then◌else◌}

-- `negsuc n` is -(n + 1).
pub data ℤ : Type 0 where
  pos : ℕ → ℤ
  negsuc : ℕ → ℤ

-- a - b, as an integer.
abbrev pub sub_ℕ : ℕ → ℕ → ℤ
sub_ℕ a b = if leb b a then pos (a - b) else negsuc (b - a - 1)

-- The sum of an integer and a number that is not negative.
abbrev pub plus : ℤ → ℕ → ℤ
plus (pos n) k = pos (n + k)
plus (negsuc n) k = sub_ℕ k (suc n)

-- The greatest integer that is at most the quotient by 1000.
abbrev pub floor_1000 : ℤ → ℤ
floor_1000 (pos n) = pos (n / 1000)
floor_1000 (negsuc n) = negsuc (n / 1000)

-- 0 <= z, and bound <= z for a bound that is not negative.
abbrev pub at_least : ℕ → ℤ → Bool
at_least bound (pos n) = leb bound n
at_least bound (negsuc n) = Bool.false

-- From the difference a - b the sum with b + d is a + d, whichever of a and b is the greater.
pub sub-plus : (a b d : ℕ) → plus (sub_ℕ a b) (b + d) ≡ pos (a + d)
sub-plus a b d = ground arith
