-- ===== src/Device.antt =====
-- device_manager.py: the life of a device on Core 1. The drivers talk to hardware; what a call of
-- one comes to is an argument: a value, an OSError with its text, or another exception, which no
-- handler of the manager catches.
mod Tests
pub mod Retry
pub mod Life
pub mod Fleet
pub mod Snapshot
use pico_dualcore.Prelude.{
  ℕ, suc, ◌+◌, Bool, true, false, ◌&&◌, String, Option, none, some, if◌then◌else◌, leb, ltb,
}
use pico_dualcore.Value.{Value, Fields, dict_value, field}
use pico_dualcore.Message.{is_json_safe}

pub data DeviceState : Type 0 where
  ready reinitialize_pending_state : DeviceState

-- `driver` is the hardware behind it, and is left out.
pub record ManagedDevice : Type 0 where
  pub device_id : String
  pub device_type : String
  pub name : Option String
  pub state : DeviceState
  pub initialization_attempts_used : ℕ
  pub consecutive_read_failures : ℕ
  pub total_read_failures : ℕ
  pub read_count : ℕ
  pub successful_read_count : ℕ
  pub last_read_ms : Option ℕ
  pub last_successful_read_ms : Option ℕ
  pub reinitialize_pending : Bool
  pub reinit_failure_logged : Bool

unfoldable pub new_device : String → String → Option String → ManagedDevice
new_device device_id device_type name = record {
  device_id = device_id;
  device_type = device_type;
  name = name;
  state = ready;
  initialization_attempts_used = 0;
  consecutive_read_failures = 0;
  total_read_failures = 0;
  read_count = 0;
  successful_read_count = 0;
  last_read_ms = none;
  last_successful_read_ms = none;
  reinitialize_pending = false;
  reinit_failure_logged = false;
}

mark_reinitialize_pending : ManagedDevice → ManagedDevice
mark_reinitialize_pending d = record d {
  reinitialize_pending = true;
  state = reinitialize_pending_state;
}

clear_reinitialize_pending : ManagedDevice → ManagedDevice
clear_reinitialize_pending d = record d {
  reinitialize_pending = false;
  state = ready;
  consecutive_read_failures = 0;
  reinit_failure_logged = false;
}

set_reinit_failure_logged : ManagedDevice → ManagedDevice
set_reinit_failure_logged d = record d { reinit_failure_logged = true }

should_suppress_reinit_failure : ManagedDevice → Bool
should_suppress_reinit_failure d = d.reinit_failure_logged

record_read_failure : ManagedDevice → ManagedDevice
record_read_failure d = record d {
  consecutive_read_failures = d.consecutive_read_failures + 1;
  total_read_failures = d.total_read_failures + 1;
}

record_read_success : ManagedDevice → ManagedDevice
record_read_success d = record d { consecutive_read_failures = 0 }

-- What driver.read() comes to.
pub data Reading : Type 0 where
  returned : Value → Reading
  read_os_error : String → Reading
  read_defect : Reading

-- What driver.initialize() comes to.
pub data Init : Type 0 where
  initialized : Init
  init_os_error : String → Init
  init_defect : Init

-- The results of one cycle of a device, with the fields that depend on its course. `escaped` is an
-- exception that leaves the manager.
pub data DeviceResult : Type 0 where
  telemetry : Value → Bool → ℕ → DeviceResult
  read_failed : String → ℕ → ℕ → Bool → DeviceResult
  reinitialized : ℕ → DeviceResult
  reinitialization_failed : Option String → ℕ → Bool → DeviceResult
  escaped : DeviceResult

-- A non-empty, JSON-safe dictionary.
is_telemetry : Value → Bool
is_telemetry (dict_value (field k v fs)) = is_json_safe (dict_value (field k v fs))
is_telemetry _ = false

-- `now` and `later` are what _now_ms() returns before and after the driver's call.
read_success : ℕ → Value → ManagedDevice → DeviceResult × ManagedDevice
unfolding record_read_success
read_success later value d =
    let previous = d.consecutive_read_failures in
    (
      telemetry value (ltb 0 previous) previous,
      record_read_success (record d {
        successful_read_count = d.successful_read_count + 1;
        last_successful_read_ms = some later;
      }),
    )

read_failure : ℕ → String → ManagedDevice → DeviceResult × ManagedDevice
unfolding record_read_failure mark_reinitialize_pending
read_failure threshold error d =
    let counted = record_read_failure d in
    let marked =
      if leb threshold counted.consecutive_read_failures
      then mark_reinitialize_pending counted
      else counted in
    (
      read_failed error marked.consecutive_read_failures marked.total_read_failures
          marked.reinitialize_pending,
      marked,
    )

after_read : ℕ → ℕ → Reading → ManagedDevice → DeviceResult × ManagedDevice
unfolding is_telemetry read_success read_failure
after_read threshold later (returned value) d =
    if is_telemetry value then read_success later value d else (escaped, d)
after_read threshold later (read_os_error error) d = read_failure threshold error d
after_read threshold later read_defect d = (escaped, d)

unfoldable pub process_normal_read :
    ℕ → ℕ → ℕ → Reading → ManagedDevice → DeviceResult × ManagedDevice
unfolding after_read
process_normal_read threshold now later reading d =
    after_read threshold later reading
      (record d { read_count = d.read_count + 1; last_read_ms = some now })
