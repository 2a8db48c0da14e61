-- ===== src/Core0/Acknowledged.antt =====
-- core0.py: what a reboot, a stale heartbeat and a response that cannot be sent lead to.
use pico_dualcore.Prelude.{
  ℕ, suc, ◌+◌, ◌%◌, ◌<◌, ◌≤◌, ◌⊎◌, arith, Bool-cases, Bool, true, false, ◌≡◌, inl, inr, ap, ◌∙◌,
  if◌then◌else◌, leb,
}
use pico_dualcore.Prelude.Int.{pos, at_least}
use pico_dualcore.Value.{Value, int_value}
use pico_dualcore.Core0.World.{World}
use pico_dualcore.Core0.State.{Core0, Exn, halted, Result, ok, raise, Act, Done, ◌>>=◌, ◌>>◌, go_on}
use pico_dualcore.Core0.Basics.{now}
use pico_dualcore.Core0.Settled.{Settled}
use pico_dualcore.Core0.Sound.Publish.{View, Viewed}
use pico_dualcore.Core0.Service.{aged, watch_core_1_heartbeat, reset}
use pico_dualcore.Core0.Keeps.{Keeps}
use pico_dualcore.Core0.Run.{run_pass}

then_raise :
    {A B : Type 0} (m : Act A) (n : Act B) (c : Core0) {e : Exn} {d : Core0}
    → m c ≡ (raise e, d)
    → (m >> n) c ≡ (raise e, d)
unfolding ◌>>◌ ◌>>=◌
then_raise m n c h = ap (go_on (λ _. n)) h

abbrev aged_by : Bool → Core0 → Result Done × Core0
aged_by b c =
    if b
    then (raise halted, record c { moment = suc c.moment; resets = true })
    else (ok tt, record c { moment = suc c.moment })

-- On a tick counter whose differences are right below half a period: a pass that begins when the stamp of
-- Core 1 is age ms old, for an age below half a period, finds it fresh if the age is below 30 s, and
-- goes on; at 30 s or more it resets the board, and does nothing else.
pub run_pass_stale :
    (w : World) (period half : ℕ)
    → ((t d : ℕ) → d < half → w.ticks_diff ((t + d) % period) (t % period) ≡ pos d)
    → (fuel last age : ℕ) (c : Core0)
    → c.intercore.state_mailboxes.core_1_activity_ms ≡ int_value (last % period)
    → w.ticks_ms c.moment ≡ (last + age) % period
    → age < half
    → ((age < 30000) × (watch_core_1_heartbeat w c ≡ (ok tt, record c { moment = suc c.moment })))
      ⊎ ((30000 ≤ age)
          × (run_pass w fuel c ≡ (raise halted, record c { moment = suc c.moment; resets = true })))
unfolding run_pass watch_core_1_heartbeat now reset
run_pass_stale w period half differences fuel last age c stamp clock near =
    elim (Bool-cases (leb 30000 age)) [
      | inl old ↦ inr (ground arith, then_raise (watch_core_1_heartbeat w) _ c (watched true old))
      | inr young ↦ inl (ground arith, watched false young)
    ]
  where
    at_age : at_least 30000 (w.ticks_diff (w.ticks_ms c.moment) (last % period)) ≡ leb 30000 age
    at_age =
        ap (λ t. at_least 30000 (w.ticks_diff t (last % period))) clock
        ∙ ap (at_least 30000) (differences last age near)

    watched : (b : Bool) → leb 30000 age ≡ b → watch_core_1_heartbeat w c ≡ aged_by b c
    watched b e = ap (λ v. aged w v c) stamp ∙ ap (λ x. aged_by x c) (at_age ∙ e)

abbrev stamp_of : Core0 → Value
stamp_of c = c.intercore.state_mailboxes.core_1_activity_ms

-- A stamp that is 30 s old, or older, by some sample of the clock.
abbrev pub Stale : World → Value → Type 0
Stale w v =
    (last n : ℕ) × (v ≡ int_value last) × (at_least 30000 (w.ticks_diff (w.ticks_ms n) last) ≡ true)

-- The stamp is v, and nothing has called machine.reset() unless v was found stale.
abbrev Watched : World → Value → View
Watched w v ids rs q b next es stamp = (stamp ≡ v) × ((b ≡ false) ⊎ Stale w v)

module _ (w : World) (v : Value) where
  abbrev Guarded : Core0 → Type 0
  Guarded c = Viewed (Watched w v) c
