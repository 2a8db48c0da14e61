-- ===== src/Core0/Sound/Service.antt =====
-- core0.py: the service hook keeps the bounds.
use pico_dualcore.Prelude.{ℕ, zero, suc, Bool, true, false, if◌then◌else◌}
use pico_dualcore.Prelude.Int.{at_least}
use pico_dualcore.Value.{Value, none_value, int_value}
use pico_dualcore.Core0.World.{World}
use pico_dualcore.Core0.State.{Core0, ok}
use pico_dualcore.Core0.Basics.{now}
use pico_dualcore.Core0.Keeps.{Keeps, pure-Keeps, act-Keeps, then-Keeps}
use pico_dualcore.Core0.Sound.{IsSound}
use pico_dualcore.Core0.Service.{
  feed_watchdog, watch_core_1_heartbeat, aged, reset, service_wait, slices,
}

module _ (w : World) where
  aged-Safe : (v : Value) → Keeps IsSound (aged w v)
  unfolding now reset
  aged-Safe none_value = record { at = λ c s. s }
  aged-Safe (int_value last) = record {
    at = λ c s.
        go (at_least 30000 (w.ticks_diff (w.ticks_ms c.moment) last))
          (record c { moment = suc c.moment }) s;
  }
    where
      go : (b : Bool) (c : Core0) → IsSound c → IsSound (if b then reset w c else (ok tt, c)).1
      go true c s = s
      go false c s = s
  aged-Safe v = record { at = λ c s. s }

  pub watch-Safe : Keeps IsSound (watch_core_1_heartbeat w)
  unfolding watch_core_1_heartbeat
  watch-Safe = record {
    at = λ c s. (aged-Safe c.intercore.state_mailboxes.core_1_activity_ms).at c s;
  }

  pub feed-IsSound : (c : Core0) → IsSound c → IsSound (feed_watchdog w c)
  unfolding feed_watchdog
  feed-IsSound c s = go c.wdt_armed
    where
      go : (b : Bool) → IsSound (if b then record c { feeds = suc c.feeds } else c)
      go true = s
      go false = s

  service_wait-Safe : Keeps IsSound (service_wait w)
  unfolding service_wait
  service_wait-Safe = then-Keeps IsSound watch-Safe (act-Keeps IsSound _ feed-IsSound)

  pub slices-Safe : (n : ℕ) → Keeps IsSound (slices w n)
  unfolding slices
  slices-Safe zero = pure-Keeps IsSound tt
  slices-Safe (suc n) = then-Keeps IsSound service_wait-Safe (slices-Safe n)
