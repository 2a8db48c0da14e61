-- ===== src/Core1/Schedule/Tests.antt =====
-- A tick counter of period 16.
use pico_dualcore.Prelude.{ℕ, ◌+◌, ◌-◌, ◌%◌, ◌<◌, some, ◌≡◌, arith, if◌then◌else◌, ltb}
use pico_dualcore.Prelude.Int.{ℤ, pos, negsuc, sub_ℕ}
use pico_dualcore.Core1.Schedule.{regrid_next_boundary, skip_boundaries, skip_boundaries-regrid}

abbrev signed : ℕ → ℤ
signed d = if ltb d 8 then pos d else negsuc (15 - d)

abbrev ticks_diff : ℕ → ℕ → ℤ
ticks_diff a b = signed ((a + 16 - b) % 16)

abbrev ticks_add : ℕ → ℕ → ℕ
ticks_add t d = (t + d) % 16

sums : (t d : ℕ) → d < 8 → ticks_add (t % 16) d ≡ (t + d) % 16
sums t d small = omega arith

differences : (t u : ℕ) → t < u + 8 → u < t + 8 → ticks_diff (t % 16) (u % 16) ≡ sub_ℕ t u
differences t u near far = ground arith

-- The anchor 13 and 3 ticks an interval, at the time 17, which the counter shows as 1.
skip_boundaries-regrid_example :
    skip_boundaries ticks_diff ticks_add 9 1 3 13
    ≡ some (regrid_next_boundary ticks_diff ticks_add 13 1 3)
skip_boundaries-regrid_example =
    skip_boundaries-regrid ticks_diff ticks_add 16 8 sums differences 9 17 13 3 (omega arith)
      (omega arith) (omega arith) (omega arith) (omega arith)
