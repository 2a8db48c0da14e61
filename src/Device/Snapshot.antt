-- ===== src/Device/Snapshot.antt =====
-- The status snapshots of device_manager.py, in configuration order.
use text.Mathlib.Text.{◌==◌ as str_eq}
use pico_dualcore.Prelude.{ℕ, ◌-◌, String, Option, none, some, List, [], ◌∷◌, if◌then◌else◌, leb}
use pico_dualcore.Value.{Value, none_value, int_value, neg_value}
use pico_dualcore.Device.{ManagedDevice, DeviceState}
use pico_dualcore.Device.Fleet.{Definition, FailedDevice, DeviceManager, get_device_counts}

pub data SnapshotState : Type 0 where
  active_state : DeviceState → SnapshotState
  initialization_failed_state : SnapshotState

-- An optional field is `none` where the snapshot lacks the key.
pub record DeviceSnapshot : Type 0 where
  pub snapshot_id : String
  pub device : String
  pub snapshot_state : SnapshotState
  pub attempts_used : ℕ
  pub consecutive_failures : ℕ
  pub total_failures : ℕ
  pub reads : ℕ
  pub successful_reads : ℕ
  pub snapshot_name : Option String
  pub failure : Option (Option String)
  pub last_read_age_ms : Option Value
  pub last_successful_read_age_ms : Option Value

-- now_ms - stamp, which is negative if the stamp is later.
difference : ℕ → ℕ → Value
difference now stamp =
    if leb stamp now then int_value (now - stamp) else neg_value (stamp - now - 1)

age : ℕ → Option ℕ → Value
unfolding difference
age now none = none_value
age now (some stamp) = difference now stamp

age_field : Option ℕ → Option ℕ → Option Value
unfolding age
age_field none stamp = none
age_field (some now) stamp = some (age now stamp)

pub device_snapshot : Option ℕ → ManagedDevice → DeviceSnapshot
unfolding age_field
device_snapshot now_ms d = record {
  snapshot_id = d.device_id;
  device = d.device_type;
  snapshot_state = active_state d.state;
  attempts_used = d.initialization_attempts_used;
  consecutive_failures = d.consecutive_read_failures;
  total_failures = d.total_read_failures;
  reads = d.read_count;
  successful_reads = d.successful_read_count;
  snapshot_name = d.name;
  failure = none;
  last_read_age_ms = age_field now_ms d.last_read_ms;
  last_successful_read_age_ms = age_field now_ms d.last_successful_read_ms;
}

-- The counters that the record of a failure lacks are 0.
pub failed_snapshot : FailedDevice → DeviceSnapshot
failed_snapshot f = record {
  snapshot_id = f.id;
  device = f.device;
  snapshot_state = initialization_failed_state;
  attempts_used = f.initialization_attempts_used;
  consecutive_failures = 0;
  total_failures = 0;
  reads = 0;
  successful_reads = 0;
  snapshot_name = none;
  failure = some f.failure_reason;
  last_read_age_ms = some none_value;
  last_successful_read_age_ms = some none_value;
}

last_snapshot : String → List DeviceSnapshot → Option DeviceSnapshot
last_snapshot id [] = none
last_snapshot id (s ∷ ss) = elim (last_snapshot id ss) [
  | some later ↦ some later
  | none ↦ if str_eq s.snapshot_id id then some s else none
]

snapshots : Option ℕ → List ManagedDevice → List FailedDevice → List DeviceSnapshot
unfolding device_snapshot failed_snapshot
snapshots now [] [] = []
snapshots now [] (f ∷ fs) = failed_snapshot f ∷ snapshots now [] fs
snapshots now (d ∷ ds) fs = device_snapshot now d ∷ snapshots now ds fs

in_order : List Definition → List DeviceSnapshot → List DeviceSnapshot
unfolding last_snapshot
in_order [] ss = []
in_order (d ∷ ds) ss = elim (last_snapshot d.id ss) [
  | none ↦ in_order ds ss
  | some s ↦ s ∷ in_order ds ss
]

-- `now` is the age reference, where the ages are asked for.
unfoldable pub get_status_snapshot :
    Option ℕ → List Definition → DeviceManager → (ℕ × ℕ × ℕ) × List DeviceSnapshot
unfolding in_order snapshots
get_status_snapshot now config m =
    (get_device_counts config m, in_order config (snapshots now m.active m.failed))
