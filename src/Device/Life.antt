-- ===== src/Device/Life.antt =====
-- One device through its cycles: reads, the threshold, reinitialization.
use pico_dualcore.Prelude.{
  ℕ, zero, suc, ◌+◌, ◌≤◌, ◌<◌, Bool, true, false, not, String, Option, ◌≡◌, arith, if◌then◌else◌,
}
use pico_dualcore.Device.{
  ready, reinitialize_pending_state, ManagedDevice, new_device, Reading, read_os_error, Init,
  DeviceResult, reinitialized, reinitialization_failed, escaped, clear_reinitialize_pending,
  set_reinit_failure_logged, should_suppress_reinit_failure, process_normal_read,
}
use pico_dualcore.Device.Retry.{
  Attempts, succeeded, exhausted, broken, initialize_driver_with_retries,
}

reinit_result : Attempts → ManagedDevice → DeviceResult × ManagedDevice
unfolding clear_reinitialize_pending set_reinit_failure_logged should_suppress_reinit_failure
reinit_result (succeeded k sleeps) d = (reinitialized k, clear_reinitialize_pending d)
reinit_result (exhausted used last sleeps) d =
    let log_failure_warning = not (should_suppress_reinit_failure d) in
    (
      reinitialization_failed last used log_failure_warning,
      (if log_failure_warning then set_reinit_failure_logged d else d),
    )
reinit_result (broken k) d = (escaped, d)

-- The attempts are those of the boot path, over the same loop.
unfoldable pub process_reinitialization :
    ℕ → (ℕ → Init) → ManagedDevice → DeviceResult × ManagedDevice
unfolding reinit_result
process_reinitialization limit outcome d =
    reinit_result (initialize_driver_with_retries limit outcome) d

-- What the world has in store for one cycle: the clock, the driver's read and its attempts.
pub record Cycle : Type 0 where
  pub now : ℕ
  pub later : ℕ
  pub reading : Reading
  pub attempts : ℕ → Init

unfoldable pub process_device : ℕ → ℕ → Cycle → ManagedDevice → DeviceResult × ManagedDevice
unfolding process_normal_read process_reinitialization
process_device threshold limit c d =
    if d.reinitialize_pending
    then process_reinitialization limit c.attempts d
    else process_normal_read threshold c.now c.later c.reading d

abbrev escapes : DeviceResult → Bool
escapes escaped = true
escapes _ = false

-- A device between two cycles.
pub record IsSound (threshold : ℕ) (d : ManagedDevice) : Type 0 where
  pub pending_state : d.reinitialize_pending ≡ true → d.state ≡ reinitialize_pending_state
  pub ready_state : d.reinitialize_pending ≡ false → d.state ≡ ready
  pub under_threshold : d.reinitialize_pending ≡ false → d.consecutive_read_failures < threshold
  pub at_threshold : d.reinitialize_pending ≡ true → threshold ≤ d.consecutive_read_failures
  pub failures : d.consecutive_read_failures ≤ d.total_read_failures
  pub accounted : d.read_count ≡ d.successful_read_count + d.total_read_failures
  pub unlogged : d.reinitialize_pending ≡ false → d.reinit_failure_logged ≡ false

pub new_device-IsSound :
    (threshold : ℕ) (i t : String) (n : Option String)
    → 0 < threshold
    → IsSound threshold (new_device i t n)
unfolding new_device
new_device-IsSound threshold i t n h = ground arith

-- A cycle that does not raise keeps a device sound: it is pending exactly while its run of read
-- failures has reached the threshold, every read is counted as a success or a failure, and a
-- warning can be suppressed only while the device is pending.
pub process_device-IsSound :
    (threshold limit : ℕ) (c : Cycle) (d : ManagedDevice)
    → 0 < threshold
    → IsSound threshold d
    → escapes (process_device threshold limit c d).0 ≡ false
    → IsSound threshold (process_device threshold limit c d).1
unfolding process_device
process_device-IsSound threshold limit c d p h e = ground arith

-- `k` cycles in which every read raises an OSError.
abbrev failing : Cycle → String → Cycle
failing c e = record c { reading = read_os_error e }

pub fail_times : ℕ → ℕ → Cycle → String → ℕ → ManagedDevice → ManagedDevice
fail_times threshold limit c e zero d = d
fail_times threshold limit c e (suc k) d =
    fail_times threshold limit c e k (process_device threshold limit (failing c e) d).1

fail_once :
    (threshold limit : ℕ) (c : Cycle) (e : String) (d : ManagedDevice)
    → d.reinitialize_pending ≡ false
    → d.consecutive_read_failures + 1 < threshold
    → let d' = (process_device threshold limit (failing c e) d).1 in
      (d'.reinitialize_pending ≡ false)
      × (d'.consecutive_read_failures ≡ d.consecutive_read_failures + 1)
unfolding process_device
fail_once threshold limit c e d p h = ground arith

fail_last :
    (threshold limit : ℕ) (c : Cycle) (e : String) (d : ManagedDevice)
    → d.reinitialize_pending ≡ false
    → d.consecutive_read_failures + 1 ≡ threshold
    → (process_device threshold limit (failing c e) d).1.reinitialize_pending ≡ true
unfolding process_device
fail_last threshold limit c e d p h = ground arith

-- From a run of n failures, exactly the failure that makes the run reach the threshold marks the
-- device for reinitialization: after k more it is pending if n + k is the threshold, and not if
-- n + k is less.
pub fail_times_lem :
    (threshold limit : ℕ) (c : Cycle) (e : String) (k : ℕ) (d : ManagedDevice)
    → d.reinitialize_pending ≡ false
    → d.consecutive_read_failures < threshold
    → (d.consecutive_read_failures + k < threshold
        → (fail_times threshold limit c e k d).reinitialize_pending ≡ false)
      × (d.consecutive_read_failures + k ≡ threshold
          → (fail_times threshold limit c e k d).reinitialize_pending ≡ true)
unfolding fail_times
fail_times_lem threshold limit c e zero d p u = (λ h. p, λ h. absurd (omega arith))
fail_times_lem threshold limit c e (suc zero) d p u = (
  λ h. (fail_once threshold limit c e d p (omega arith)).0,
  λ h. fail_last threshold limit c e d p (omega arith),
)
fail_times_lem threshold limit c e (suc (suc k)) d p u = (
  λ h.
      let (q, r) = fail_once threshold limit c e d p (omega arith) in
      (fail_times_lem threshold limit c e (suc k) (process_device threshold limit (failing c e) d).1
          q (omega arith)).0
        (omega arith),
  λ h.
      let (q, r) = fail_once threshold limit c e d p (omega arith) in
      (fail_times_lem threshold limit c e (suc k) (process_device threshold limit (failing c e) d).1
          q (omega arith)).1
        (omega arith),
)

-- Of two failed reinitializations in a row only the first may ask for a warning, and it does so
-- unless one was logged since the last success; both leave the device pending as it was.
pub reinit_warns_once :
    (limit : ℕ) (a b : ℕ → Init) (d : ManagedDevice) {e e' : Option String} {u u' : ℕ} {w w' : Bool}
    → let (r, d') = process_reinitialization limit a d in
      let (r', d'') = process_reinitialization limit b d' in
      r ≡ reinitialization_failed e u w
      → r' ≡ reinitialization_failed e' u' w'
      → (w ≡ not d.reinit_failure_logged)
        × (w' ≡ false)
        × (d''.reinitialize_pending ≡ d.reinitialize_pending)
unfolding process_reinitialization
reinit_warns_once limit a b d h k = ground arith
