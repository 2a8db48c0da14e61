-- ===== src/Uptime.antt =====
-- uptime.py: the uptime since boot, accumulated over the samples of the tick counter. The counter and
-- ticks_diff belong to MicroPython: ticks_diff is a parameter.
use pico_dualcore.Prelude.{ℕ, ◌+◌, ◌%◌, ◌<◌, List, [], ◌∷◌, ◌≡◌, All, refl, ap, ◌∙◌}

pub record UptimeState : Type 0 where
  pub last_ticks_ms : ℕ
  pub accumulated_ms : ℕ

pub create_uptime_state : ℕ → UptimeState
create_uptime_state boot_ticks_ms = record { last_ticks_ms = boot_ticks_ms; accumulated_ms = 0 }

module _ (ticks_diff : ℕ → ℕ → ℕ) where
  unfoldable pub current_uptime_ms : ℕ → UptimeState → ℕ × UptimeState
  current_uptime_ms now_ms s =
      let accumulated = s.accumulated_ms + ticks_diff now_ms s.last_ticks_ms in
      (accumulated, record { last_ticks_ms = now_ms; accumulated_ms = accumulated })

  -- Samples `deltas` apart, the first of them after the time `t`, of a counter with the period.
  abbrev pub sampled : ℕ → ℕ → List ℕ → UptimeState → UptimeState
  sampled period t [] s = s
  sampled period t (d ∷ ds) s = sampled period (t + d) ds (current_uptime_ms ((t + d) % period) s).1

  abbrev pub elapsed : ℕ → List ℕ → ℕ
  elapsed from [] = from
  elapsed from (d ∷ ds) = elapsed (from + d) ds

  module _ (period half : ℕ)
      (recent : (t d : ℕ) → d < half → ticks_diff ((t + d) % period) (t % period) ≡ d) where
    from_state :
        (t : ℕ) (ds : List ℕ) (s : UptimeState)
        → All (λ d. d < half) ds
        → s.last_ticks_ms ≡ t % period
        → (sampled period t ds s).accumulated_ms ≡ elapsed s.accumulated_ms ds
    unfolding current_uptime_ms
    from_state t [] s a e = refl
    from_state t (d ∷ ds) s a e =
        from_state (t + d) ds (current_uptime_ms ((t + d) % period) s).1 a.1 refl
        ∙ ap (λ n. elapsed n ds) (rw e (ap (λ n. s.accumulated_ms + n) (recent t d a.0)))

    -- If ticks_diff is right for ticks less than half a period apart, the uptime is the sum of all
    -- the times between samples, each less than half a period, however often the counter wraps.
    pub current_uptime_ms_lem :
        (boot : ℕ) (ds : List ℕ)
        → All (λ d. d < half) ds
        → (sampled period boot ds (create_uptime_state (boot % period))).accumulated_ms
          ≡ elapsed 0 ds
    unfolding create_uptime_state
    current_uptime_ms_lem boot ds a = from_state boot ds _ a refl
