-- ===== src/Core0/Service.antt =====
-- core0.py: the hook of the long waits: the heartbeat of Core 1 and the watchdog.
use pico_dualcore.Prelude.{ℕ, zero, suc, ◌*◌, true, if◌then◌else◌}
use pico_dualcore.Prelude.Int.{at_least}
use pico_dualcore.Value.{Value, int_value}
use pico_dualcore.Core0.World.{World}
use pico_dualcore.Core0.State.{Core0, halted, ok, raise, Act, Done, pure, act, ◌>>◌}
use pico_dualcore.Core0.Basics.{now}

module _ (w : World) where
  unfoldable pub feed_watchdog : Core0 → Core0
  feed_watchdog c = if c.wdt_armed then record c { feeds = suc c.feeds } else c

  abbrev pub core_1_heartbeat_stale_timeout_ms : ℕ
  core_1_heartbeat_stale_timeout_ms = 30000

  unfoldable pub reset : {A : Type 0} → Act A
  reset c = (raise halted, record c { resets = true })

  abbrev pub aged : Value → Act Done
  aged (int_value last) c =
      let (t, c') = now w c in
      if at_least core_1_heartbeat_stale_timeout_ms (w.ticks_diff t last)
      then reset c'
      else (ok tt, c')
  aged v c = (ok tt, c)

  -- The mailbox holds None until the first stamp of Core 1.
  unfoldable pub watch_core_1_heartbeat : Act Done
  unfolding now reset
  watch_core_1_heartbeat c = aged c.intercore.state_mailboxes.core_1_activity_ms c

  unfoldable pub service_wait : Act Done
  unfolding watch_core_1_heartbeat feed_watchdog
  service_wait = do watch_core_1_heartbeat; act feed_watchdog

  unfoldable pub slices : ℕ → Act Done
  unfolding service_wait
  slices zero = pure tt
  slices (suc n) = do service_wait; slices n

  unfoldable pub sleep_and_service : ℕ → Act Done
  unfolding slices
  sleep_and_service delay_sec = slices (delay_sec * 10)
