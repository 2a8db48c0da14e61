-- ===== src/Core0/Clock.antt =====
-- core0.py: the time that Core 0 tells after a synchronization.
use pico_dualcore.Prelude.{ℕ, ◌+◌, String, some, ◌≡◌, ap, ◌∙◌}
use pico_dualcore.Prelude.Int.{pos, sub_ℕ, plus, sub-plus}
use pico_dualcore.Message.Time.{format_utc_epoch_ms}
use pico_dualcore.Core0.World.{World}
use pico_dualcore.Core0.State.{Core0}
use pico_dualcore.Core0.Basics.{uptime_ms, current_utc_timestamp, timestamp_by, or_raise}
use pico_dualcore.Core0.Info.{synchronized}

-- After a synchronization to an epoch, and as long as it is the last, the time told d ms of uptime later
-- is that of the epoch and d ms, also when the uptime of the board is more than the epoch.
pub synchronized-told :
    (w : World) (epoch d : ℕ) (text : String) (c later : Core0)
    → later.utc_snapshot ≡ (synchronized w epoch (some text) c).utc_snapshot
    → (uptime_ms w later).0 ≡ (uptime_ms w c).0 + d
    → (current_utc_timestamp w later)
      ≡ or_raise (format_utc_epoch_ms w.gmtime (pos (epoch + d))) (uptime_ms w later).1
unfolding current_utc_timestamp synchronized
synchronized-told w epoch d text c later same aged =
    ap (λ o. timestamp_by w o later) same
    ∙ ap (λ z. or_raise (format_utc_epoch_ms w.gmtime z) (uptime_ms w later).1)
        (ap (plus (sub_ℕ epoch (uptime_ms w c).0)) aged ∙ sub-plus epoch (uptime_ms w c).0 d)
