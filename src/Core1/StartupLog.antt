-- ===== src/Core1/StartupLog.antt =====
-- core1.py: the startup log and its bounded fallback.
use pico_dualcore.Prelude.{ℕ, suc, String, Option, none, some, List, [], ◌∷◌, ◌++◌, if◌then◌else◌}
use pico_dualcore.Value.{Value, Items, nil, cons, int_value, str_value, list_value, dict_value}
use pico_dualcore.Config.Check.{is_empty}
use pico_dualcore.Device.{ready}
use pico_dualcore.Device.Fleet.{Definition, DeviceManager}
use pico_dualcore.Device.Snapshot.{
  SnapshotState, active_state, initialization_failed_state, DeviceSnapshot, get_status_snapshot,
}
use pico_dualcore.Core0.Basics.{object, text_or_none}
use pico_dualcore.Core1.State.{World, Result, ok, raise, Act, ◌>>=◌, current_utc_timestamp}

abbrev status_of : String → Value
status_of text = dict_value (object (("status", str_value text) ∷ []))

-- The statuses and the numbers of the devices: those configured, those ready, those that failed.
unfoldable pub startup_summary : ℕ × ℕ × ℕ → ℕ → String → List (String × Value)
startup_summary (configured, active, initialization_failed) startup_duration_ms reset_cause =
    ("duration_ms", int_value startup_duration_ms)
    ∷ ("reset_cause", str_value reset_cause)
    ∷ ("hardware", status_of "ready")
    ∷ ("wifi", status_of "ready")
    ∷ ("mqtt", status_of "ready")
    ∷ ("subscriptions", status_of "ready")
    ∷ ("utc", status_of "synchronized")
    ∷ ("core_0", status_of "running")
    ∷ ("core_1", status_of "running")
    ∷ ("devices_configured", int_value configured)
    ∷ ("devices_ready", int_value active)
    ∷ ("devices_failed", int_value initialization_failed)
    ∷ []

abbrev startup_payload : List (String × Value) → Value
startup_payload summary = dict_value (
    object (
      ("level", str_value "info")
      ∷ ("event", str_value "system_startup_completed")
      ∷ ("module", str_value "system")
      ∷ ("message", str_value "System startup completed")
      ∷ ("data", dict_value (object (("startup", dict_value (object summary)) ∷ [])))
      ∷ []))

abbrev name_or_id : Option String → String → String
name_or_id none id = id
name_or_id (some name) id = if is_empty name then id else name

abbrev device_info : DeviceSnapshot → List (String × Value) → Value
device_info s more = dict_value (
    object (
      ("device", str_value s.device)
      ∷ ("name", str_value (name_or_id s.snapshot_name s.snapshot_id))
      ∷ more))

abbrev reason_of : Option (Option String) → Value
reason_of none = text_or_none none
reason_of (some reason) = text_or_none reason

-- The devices that are ready.
abbrev pub ready_devices : List DeviceSnapshot → Items
ready_devices [] = nil
ready_devices (s ∷ ss) = go s.snapshot_state (ready_devices ss)
  where
    go : SnapshotState → Items → Items
    go (active_state ready) rest = cons (device_info s []) rest
    go state rest = rest

-- Those whose boot failed, with the reason.
abbrev pub failed_devices : List DeviceSnapshot → Items
failed_devices [] = nil
failed_devices (s ∷ ss) = go s.snapshot_state (failed_devices ss)
  where
    go : SnapshotState → Items → Items
    go initialization_failed_state rest =
        cons (device_info s (("failure_reason", reason_of s.failure) ∷ [])) rest
    go state rest = rest

module _ (w : World) where
  abbrev built : Result Value → ℕ → List (String × Value) → Result Value
  built (raise e) u summary = raise e
  built (ok timestamp) u summary = ok (
      dict_value (
        object (
          ("message_type", str_value "log")
          ∷ ("uptime_ms", int_value u)
          ∷ ("timestamp", timestamp)
          ∷ ("payload", startup_payload summary)
          ∷ [])))

  unfoldable pub startup_log_message : ℕ → List (String × Value) → Act Value
  unfolding current_utc_timestamp
  startup_log_message startup_duration_ms summary c = (
    built (current_utc_timestamp w c.intercore.state_mailboxes.utc_snapshot startup_duration_ms)
        startup_duration_ms summary,
    c,
  )

  -- Both logs read the clock, for the ages of a snapshot, which they leave out.
  abbrev snapshot : List Definition → DeviceManager → Act ((ℕ × ℕ × ℕ) × List DeviceSnapshot)
  snapshot devices manager c = (
    ok (get_status_snapshot (some (w.ticks_ms c.moment)) devices manager),
    record c { moment = suc c.moment },
  )

  module _ (devices : List Definition) (manager : DeviceManager) (startup_duration_ms : ℕ)
      (reset_cause : String) where
    unfoldable pub build_startup_log : Act Value
    unfolding startup_summary startup_log_message
    build_startup_log = do
      (counts, snapshots) ← snapshot devices manager
      startup_log_message startup_duration_ms (
          startup_summary counts startup_duration_ms reset_cause
          ++ ("ready_devices", list_value (ready_devices snapshots))
            ∷ ("failed_devices", list_value (failed_devices snapshots))
            ∷ [])

    unfoldable pub build_startup_log_bounded : Act Value
    unfolding startup_summary startup_log_message
    build_startup_log_bounded = do
      (counts, snapshots) ← snapshot devices manager
      startup_log_message startup_duration_ms
          (startup_summary counts startup_duration_ms reset_cause)
