-- ===== src/Core1/Schedule.antt =====
-- core1.py: the boundaries of the periodic work. The tick counter wraps at `period`; ticks_diff and
-- ticks_add belong to MicroPython and are parameters.
mod Tests
use pico_dualcore.Prelude.{
  ℕ, zero, suc, ◌+◌, ◌-◌, ◌*◌, ◌/◌, ◌%◌, ◌≤◌, ◌<◌, Bool, true, false, Option, none, some, ◌≡◌, refl,
  ap, ◌∙◌, sym, arith, if◌then◌else◌, leb,
}
use native.Mathlib.Nat.{lt-div-mul-add, div-mul-le_self, div-eq_of_lt, div-eq-sub-div}
use native.Mathlib.Decide.{dec_lt}
use pico_dualcore.Prelude.Int.{ℤ, pos, negsuc, sub_ℕ, at_least}

module _ (ticks_diff : ℕ → ℕ → ℤ) (ticks_add : ℕ → ℕ → ℕ) where
  abbrev pub boundary_after : ℕ → ℕ → ℤ → ℕ
  boundary_after anchor interval_ms (pos elapsed) =
      ticks_add anchor ((elapsed / interval_ms + 1) * interval_ms)
  boundary_after anchor interval_ms (negsuc early) = anchor

  unfoldable pub regrid_next_boundary : ℕ → ℕ → ℕ → ℕ
  regrid_next_boundary anchor now interval_ms =
      boundary_after anchor interval_ms (ticks_diff now anchor)

  -- `while ticks_diff(now, next) >= 0: next = ticks_add(next, interval)`; `none` where the fuel ran out.
  unfoldable pub skip_boundaries : ℕ → ℕ → ℕ → ℕ → Option ℕ
  skip_boundaries zero now interval_ms next = none
  skip_boundaries (suc fuel) now interval_ms next =
      let rest = skip_boundaries fuel now interval_ms (ticks_add next interval_ms) in
      if at_least 0 (ticks_diff now next) then rest else some next

  -- What MicroPython documents: a sum wraps, for a delta below half a period (ticks_add raises beyond
  -- it), and differences are right within half a period.
  module _ (period half : ℕ)
      (sums : (t d : ℕ) → d < half → ticks_add (t % period) d ≡ (t + d) % period)
      (differences : (t u : ℕ)
        → t < u + half
        → u < t + half
        → ticks_diff (t % period) (u % period) ≡ sub_ℕ t u) where
    -- The number of intervals from the anchor to the first boundary after now.
    abbrev pub intervals : ℕ → ℕ → ℕ → ℕ
    intervals anchor now interval_ms = (now - anchor) / interval_ms + 1

    leb_zero : (n : ℕ) → leb 0 n ≡ true
    leb_zero n = ground arith

    later : (t u : ℕ) → u ≤ t → sub_ℕ t u ≡ pos (t - u)
    later t u h = ground arith

    earlier : (t u : ℕ) → t < u → sub_ℕ t u ≡ negsuc (u - t - 1)
    earlier t u h = ground arith

    within :
        (anchor now interval_ms : ℕ)
        → anchor ≤ now
        → anchor + intervals anchor now interval_ms * interval_ms ≤ now + interval_ms
    within anchor now i before =
        let one_more : ((now - anchor) / i + 1) * i ≡ (now - anchor) / i * i + i = grind arith in
        omega (arith, one_more, div-mul-le_self (now - anchor) i)

    regridded :
        (anchor now interval_ms : ℕ)
        → anchor ≤ now
        → now + interval_ms < anchor + half
        → regrid_next_boundary (anchor % period) (now % period) interval_ms
          ≡ (anchor + intervals anchor now interval_ms * interval_ms) % period
    unfolding regrid_next_boundary
    regridded anchor now interval_ms before near =
        ap (boundary_after (anchor % period) interval_ms)
          (differences now anchor (omega arith) (omega arith) ∙ later now anchor before)
        ∙ sums anchor (intervals anchor now interval_ms * interval_ms)
            (omega (arith, within anchor now interval_ms before))

    early :
        (now next interval_ms : ℕ)
        → now < next
        → next < now + half
        → regrid_next_boundary (next % period) (now % period) interval_ms ≡ next % period
    unfolding regrid_next_boundary
    early now next interval_ms before near =
        ap (boundary_after (next % period) interval_ms)
          (differences now next (omega arith) near ∙ earlier now next before)

    -- For a now that is not before the anchor, and an interval from less than half a period after it, the next boundary is
    -- a whole number of intervals after the anchor, the first that is after now.
    pub regrid_next_boundary_lem :
        (anchor now interval_ms : ℕ)
        → 0 < interval_ms
        → anchor ≤ now
        → now + interval_ms < anchor + half
        → let k = intervals anchor now interval_ms in
          (regrid_next_boundary (anchor % period) (now % period) interval_ms
            ≡ (anchor + k * interval_ms) % period)
          × (now < anchor + k * interval_ms)
          × (anchor + k * interval_ms ≤ now + interval_ms)
    regrid_next_boundary_lem anchor now interval_ms i before near =
        (regridded anchor now interval_ms before near, after, within anchor now interval_ms before)
      where
        x : ℕ
        x = now - anchor

        q : ℕ
        q = x / interval_ms

        one_more : (q + 1) * interval_ms ≡ q * interval_ms + interval_ms
        one_more = grind arith

        after : now < anchor + (q + 1) * interval_ms
        after = omega (arith, one_more, lt-div-mul-add {a = x} i)

    -- An interval more from a boundary that has passed leads to the same next one.
    regrid_step :
        (now next interval_ms : ℕ)
        → 0 < interval_ms
        → interval_ms < half
        → next ≤ now
        → now + interval_ms < next + half
        → regrid_next_boundary ((next + interval_ms) % period) (now % period) interval_ms
          ≡ regrid_next_boundary (next % period) (now % period) interval_ms
    regrid_step now next i pos_i small le near = elim (dec_lt now (next + i)) [
      | yes gone ↦
          early now (next + i) i gone (omega arith)
          ∙ ap (λ n. n % period) (last gone)
          ∙ sym (regridded next now i le near)
      | no still ↦
          regridded (next + i) now i (omega arith) (omega arith)
          ∙ ap (λ n. n % period) (further (omega arith))
          ∙ sym (regridded next now i le near)
    ]
      where
        last : now < next + i → next + i ≡ next + intervals next now i * i
        last gone =
            let e : (now - next) / i ≡ 0 = div-eq_of_lt {n = now - next} {m = i} (omega arith) in
            rw e (omega arith)

        further :
            next + i ≤ now
            → next + i + intervals (next + i) now i * i ≡ next + intervals next now i * i
        further le' =
            let e : (now - next) / i ≡ (now - next - i) / i + 1 =
              div-eq-sub-div {m = i} {n = now - next} pos_i (omega arith) in
            let d : now - (next + i) ≡ now - next - i = omega arith in rw (e, d) (grind arith)

    -- For a now less than half a period before the boundary, or after it by less than half a period with an
    -- interval added, an interval that is positive and shorter than half a period, and fuel for the
    -- distance to now, the loop ends, at the boundary that the closed form gives, whether it has to skip
    -- any or not.
    pub skip_boundaries-regrid :
        (fuel now next interval_ms : ℕ)
        → 0 < interval_ms
        → interval_ms < half
        → now + interval_ms < next + half
        → next < now + half
        → suc now - next < fuel
        → skip_boundaries fuel (now % period) interval_ms (next % period)
          ≡ some (regrid_next_boundary (next % period) (now % period) interval_ms)
    unfolding skip_boundaries
    skip_boundaries-regrid zero now next i pos_i small near far enough = absurd (omega arith)
    skip_boundaries-regrid (suc fuel) now next i pos_i small near far enough =
        elim (dec_lt now next) [
          | yes gone ↦
              ap (λ z. if at_least 0 z then rest else some (next % period))
                (differences now next (omega arith) far ∙ earlier now next gone)
              ∙ ap some (sym (early now next i gone far))
          | no still ↦
              ap (λ z. if at_least 0 z then rest else some (next % period))
                (differences now next (omega arith) far ∙ later now next (omega arith))
              ∙ ap (λ b. if b then rest else some (next % period)) (leb_zero (now - next))
              ∙ ap (λ n. skip_boundaries fuel (now % period) i n) (sums next i small)
              ∙ skip_boundaries-regrid fuel now (next + i) i pos_i small (omega arith) (omega arith)
                  (omega arith)
              ∙ ap some (regrid_step now next i pos_i small (omega arith) near)
        ]
      where
        rest : Option ℕ
        rest = skip_boundaries fuel (now % period) i (ticks_add (next % period) i)
