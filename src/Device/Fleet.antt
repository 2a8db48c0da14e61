-- ===== src/Device/Fleet.antt =====
-- device_manager.py, DeviceManager: the devices that run and those whose boot failed.
pub mod Recovery
mod Tests
use text.Mathlib.Text.{◌==◌ as str_eq}
use pico_dualcore.Prelude.{
  ℕ, zero, suc, ◌+◌, ◌≤◌, Bool, true, false, not, String, Option, none, some, List, [], ◌∷◌, ◌++◌,
  ◌≡◌, refl, sym, ◌∙◌, ap, arith, if◌then◌else◌, length, length-append,
}
use pico_dualcore.Device.{
  ManagedDevice, DeviceState, ready, reinitialize_pending_state, new_device, Init, initialized,
  init_os_error, init_defect,
}
use pico_dualcore.Device.Retry.{
  Attempts, succeeded, exhausted, broken, initialize_driver_with_retries,
}

pub record Definition : Type 0 where
  pub id : String
  pub device_type : String
  pub name : Option String

pub record FailedDevice : Type 0 where
  pub id : String
  pub device : String
  pub initialization_attempts_used : ℕ
  pub failure_reason : Option String
  pub retry_failure_logged : Bool

pub record DeviceManager : Type 0 where
  pub active : List ManagedDevice
  pub failed : List FailedDevice

-- What create_device() comes to.
pub data Created : Type 0 where
  created : Created
  create_os_error : String → Created
  create_defect : Created

-- self._failed_devices[id] = info
unfoldable pub put_failed : String → FailedDevice → List FailedDevice → List FailedDevice
put_failed id info [] = info ∷ []
put_failed id info (f ∷ fs) = if str_eq f.id id then info ∷ fs else f ∷ put_failed id info fs

record_failure : Definition → ℕ → Option String → DeviceManager → DeviceManager
unfolding put_failed
record_failure d used reason m = record m {
  failed =
      put_failed d.id
        (record {
          id = d.id;
          device = d.device_type;
          initialization_attempts_used = used;
          failure_reason = reason;
          retry_failure_logged = false;
        })
        m.failed;
}

record_success : Definition → ℕ → DeviceManager → DeviceManager
unfolding new_device
record_success d used m =
    let fresh = new_device d.id d.device_type d.name in
    record m { active = m.active ++ record fresh { initialization_attempts_used = used } ∷ [] }

-- `none` is an exception that leaves the manager.
by_attempts : Definition → DeviceManager → Attempts → Option (Bool × DeviceManager)
unfolding record_success record_failure
by_attempts d m (succeeded k sleeps) = some (true, record_success d k m)
by_attempts d m (exhausted used last sleeps) = some (false, record_failure d used last m)
by_attempts d m (broken k) = none

by_driver : ℕ → (ℕ → Init) → Definition → DeviceManager → Created → Option (Bool × DeviceManager)
unfolding by_attempts
by_driver limit outcome d m created = by_attempts d m (initialize_driver_with_retries limit outcome)
by_driver limit outcome d m (create_os_error e) = some (false, record_failure d 0 (some e) m)
by_driver limit outcome d m create_defect = none

-- The drivers of a pass: what creating each and its attempts come to.
module _ (limit : ℕ) (create : Definition → Created) (outcome : Definition → ℕ → Init) where
  pub initialize_single_device : Definition → DeviceManager → Option (Bool × DeviceManager)
  unfolding by_driver
  initialize_single_device d m = by_driver limit (outcome d) d m (create d)

  abbrev counted : ℕ → Option (Bool × DeviceManager) → Option (ℕ × DeviceManager)
  counted n none = none
  counted n (some (success, m)) = some ((if success then suc n else n), m)

  unfoldable pub initialize_from : ℕ → List Definition → DeviceManager → Option (ℕ × DeviceManager)
  unfolding initialize_single_device
  initialize_from n [] m = some (n, m)
  initialize_from n (d ∷ ds) m = elim (counted n (initialize_single_device d m)) [
    | none ↦ none
    | some (n', m') ↦ initialize_from n' ds m'
  ]

  unfoldable pub initialize_devices : List Definition → DeviceManager → Option (ℕ × DeviceManager)
  unfolding initialize_from
  initialize_devices = initialize_from 0

pub has_failed_devices : DeviceManager → Bool
has_failed_devices m = not (none_left m.failed)
  where
    none_left : List FailedDevice → Bool
    none_left [] = true
    none_left (f ∷ fs) = false

find_failed : String → List FailedDevice → Option FailedDevice
find_failed id [] = none
find_failed id (f ∷ fs) = if str_eq f.id id then some f else find_failed id fs

delete_failed : String → List FailedDevice → List FailedDevice
delete_failed id [] = []
delete_failed id (f ∷ fs) = if str_eq f.id id then fs else f ∷ delete_failed id fs

pub data Retried : Type 0 where
  boot_recovered : String → ℕ → Retried
  boot_recovery_failed : String → Option String → ℕ → Bool → Retried

-- `id` is the key of the record. The first failure of a device since it entered the record asks for a warning.
late_retry_failure_result : String → FailedDevice → String → DeviceManager → Retried × DeviceManager
unfolding put_failed
late_retry_failure_result id f error m =
    let log_failure_warning = not f.retry_failure_logged in
    (
      boot_recovery_failed f.id (some error) f.initialization_attempts_used log_failure_warning,
      record m { failed = put_failed id (record f { retry_failure_logged = true }) m.failed },
    )

promote : Definition → FailedDevice → DeviceManager → Retried × DeviceManager
unfolding new_device delete_failed
promote d f m =
    let used = f.initialization_attempts_used + 1 in
    let fresh = new_device d.id d.device_type d.name in
    (
      boot_recovered d.id used,
      record m {
        active = m.active ++ record fresh { initialization_attempts_used = used } ∷ [];
        failed = delete_failed d.id m.failed;
      },
    )

by_probe : Definition → FailedDevice → DeviceManager → Init → Option (Retried × DeviceManager)
unfolding late_retry_failure_result promote
by_probe d f m initialized = some (promote d f m)
by_probe d f m (init_os_error e) = some (
    late_retry_failure_result d.id
      (record f {
        initialization_attempts_used = f.initialization_attempts_used + 1;
        failure_reason = some e;
      })
      e m)
by_probe d f m init_defect = none

by_creation :
    Definition → FailedDevice → DeviceManager → Init → Created → Option (Retried × DeviceManager)
unfolding by_probe late_retry_failure_result
by_creation d f m probe created = by_probe d f m probe
by_creation d f m probe (create_os_error e) =
    some (late_retry_failure_result d.id (record f { failure_reason = some e }) e m)
by_creation d f m probe create_defect = none

abbrev one_result : Option (Retried × DeviceManager) → Option (List Retried × DeviceManager)
one_result none = none
one_result (some (r, m)) = some (r ∷ [], m)

abbrev prepend :
    List Retried → Option (List Retried × DeviceManager) → Option (List Retried × DeviceManager)
prepend rs none = none
prepend rs (some (rest, m)) = some (rs ++ rest, m)

-- A pass over the configured devices: what creating each comes to, and its one attempt.
module _ (create : Definition → Created) (probe : Definition → Init) where
  retry_device : Definition → DeviceManager → Option (List Retried × DeviceManager)
  unfolding find_failed by_creation
  retry_device d m = elim (find_failed d.id m.failed) [
    | none ↦ some ([], m)
    | some f ↦ one_result (by_creation d f m (probe d) (create d))
  ]

  unfoldable pub retry_failed_devices :
      List Definition → DeviceManager → Option (List Retried × DeviceManager)
  unfolding retry_device
  retry_failed_devices [] m = some ([], m)
  retry_failed_devices (d ∷ ds) m = elim (retry_device d m) [
    | none ↦ none
    | some (rs, m') ↦ prepend rs (retry_failed_devices ds m')
  ]

pub recovered : List Retried → ℕ
recovered [] = 0
recovered (boot_recovered id used ∷ rs) = suc (recovered rs)
recovered (boot_recovery_failed id e used w ∷ rs) = recovered rs

-- get_device_counts
unfoldable pub count_ready : List ManagedDevice → ℕ
count_ready [] = 0
count_ready (d ∷ ds) = is_ready d.state + count_ready ds
  where
    is_ready : DeviceState → ℕ
    is_ready ready = 1
    is_ready reinitialize_pending_state = 0

pub get_device_counts : List Definition → DeviceManager → ℕ × ℕ × ℕ
unfolding count_ready
get_device_counts config m = (length config, count_ready m.active, length m.failed)
