-- ===== src/Core0/Info.antt =====
-- core0.py: the handler of the answer to a request for the time.
use pico_dualcore.Prelude.{
  ℕ, suc, ◌-◌, Bool, false, not, ◌&&◌, ◌||◌, String, Option, none, some, [], ◌∷◌, if◌then◌else◌,
}
use pico_dualcore.Prelude.Int.{pos, sub_ℕ}
use pico_dualcore.Value.{Value, Fields, int_value, str_value, dict_value}
use pico_dualcore.Config.Check.{get, is_empty}
use pico_dualcore.Message.Time.{format_utc_epoch_ms}
use pico_dualcore.Intercore.Container.{set_utc_snapshot}
use pico_dualcore.Core0.World.{World}
use pico_dualcore.Core0.State.{Core0, UtcSnapshot}
use pico_dualcore.Core0.Basics.{object, int_of, now, uptime_ms}
use pico_dualcore.Core0.Handlers.{is_text}

module _ (w : World) where
  unfoldable pub utc_clear_pending : Core0 → Core0
  utc_clear_pending c = record c { pending_utc_request_id = none; utc_request_deadline_ms = none }

  -- The last attempt is set back, so that the next is due 500 ms from now.
  unfoldable pub utc_note_reachable_failure : Core0 → Core0
  unfolding utc_clear_pending now
  utc_note_reachable_failure c =
      let (t, c') = now w (utc_clear_pending c) in
      record c' { utc_last_attempt_ms = some (w.ticks_back t (30000 - 500)) }

  abbrev snapshot_value : UtcSnapshot → Value
  snapshot_value s = dict_value (
      object (
        ("timestamp", str_value s.timestamp)
        ∷ ("utc_epoch_ms", int_value s.utc_epoch_ms)
        ∷ ("sync_uptime_ms", int_value s.sync_uptime_ms)
        ∷ ("runtime_start_epoch_ms", int_of s.runtime_start_epoch_ms)
        ∷ []))

  unfoldable pub publish_utc_snapshot : Option UtcSnapshot → Core0 → Core0
  publish_utc_snapshot none c = c
  publish_utc_snapshot (some s) c =
      let (stored, m) = set_utc_snapshot (snapshot_value s) c.intercore.state_mailboxes in
      record c { intercore = record c.intercore { state_mailboxes = m } }

  -- The epoch, once its text is known.
  unfoldable pub synchronized : ℕ → Option String → Core0 → Core0
  unfolding utc_note_reachable_failure uptime_ms publish_utc_snapshot utc_clear_pending
  synchronized epoch none c = utc_note_reachable_failure c
  synchronized epoch (some text) c =
      let (u, c') = uptime_ms w c in
      let snapshot : UtcSnapshot = record {
        timestamp = text;
        utc_epoch_ms = epoch;
        sync_uptime_ms = u;
        runtime_start_epoch_ms = sub_ℕ epoch u;
      } in
      utc_clear_pending
        (publish_utc_snapshot (some snapshot) (record c' { utc_snapshot = some snapshot }))

  abbrev non_empty : Value → Bool
  non_empty (str_value s) = not (is_empty s)
  non_empty _ = false

  abbrev positive : Value → Option ℕ
  positive (int_value (suc n)) = some (suc n)
  positive _ = none

  unfoldable pub utc_epoch : Option ℕ → Core0 → Core0
  unfolding synchronized utc_note_reachable_failure
  utc_epoch none c = utc_note_reachable_failure c
  utc_epoch (some epoch) c = synchronized epoch (format_utc_epoch_ms w.gmtime (pos epoch)) c

  unfoldable pub utc_payload : Value → Core0 → Core0
  unfolding utc_epoch utc_note_reachable_failure
  utc_payload (dict_value payload) c =
      if non_empty (get "timestamp" payload)
      then utc_epoch (positive (get "utc_epoch_ms" payload)) c
      else utc_note_reachable_failure c
  utc_payload v c = utc_note_reachable_failure c

  abbrev answers : Option String → Value → Bool
  answers (some request_id) v = is_text request_id v
  answers none v = false

  unfoldable pub handle_info_response : Fields → Core0 → Core0
  unfolding utc_payload
  handle_info_response doc c =
      if (is_text "server" (get "source" doc) || is_text w.config.source (get "source" doc))
        && (is_text w.config.source (get "target" doc)
            && (is_text "utc_time" (get "request_type" doc)
                && answers c.pending_utc_request_id (get "request_id" doc)))
      then utc_payload (get "payload" doc) c
      else c
