-- ===== src/Core1/Startup.antt =====
-- core1.py: the startup log, which is admitted before telemetry begins, and the telemetry of a device.
use pico_dualcore.Prelude.{ℕ, suc, Bool, true, false, [], ◌∷◌, ◌≡◌, ◌≢◌, ◌⊎◌, inl, inr, refl}
use pico_dualcore.Value.{Value, int_value, str_value, dict_value, bytes_value}
use pico_dualcore.Message.{
  Serialized, payload, raised, memory_error, message_too_large, serialize_and_validate_message,
}
use pico_dualcore.Device.{ManagedDevice, DeviceResult, telemetry}
use pico_dualcore.Intercore.Outbound.{kind_log, kind_telemetry}
use pico_dualcore.Intercore.Outbound.Lane as Lane
use pico_dualcore.Core0.Basics.{object, text_or_none}
use pico_dualcore.Core1.State as Shared
use pico_dualcore.Core1.State.{
  World, Core1, Exn, too_large, value_error, escape, Result, ok, raise, Act, pure, ◌>>=◌,
  message_time, put,
}

-- What leaves the admission of the startup log: a StartupLogTooLargeError, another ValueError, a
-- MemoryError, or any other exception.
pub data LogExn : Type 0 where
  log_too_large log_rejected log_out_of_memory log_escape : LogExn

pub data Admission : Type 0 where
  admission : Bool → Admission
  refusal : LogExn → Admission

abbrev pub Try : Type 0
Try = Core1 → Admission × Core1

abbrev pub retention_priority_info : ℕ
retention_priority_info = 50

abbrev pub retention_priority_telemetry : ℕ
retention_priority_telemetry = 40

abbrev pub put_answer : Lane.Put → Admission
put_answer Lane.admitted = admission true
put_answer Lane.rejected = admission false
put_answer Lane.value_error = refusal log_rejected
put_answer Lane.too_large = refusal log_rejected
put_answer Lane.no_fuel = refusal log_escape

module _ (w : World) where
  abbrev pub put_log : Serialized → Try
  put_log (payload bs) c =
      let (r, q) =
        Lane.put_with_kind w.free kind_log (bytes_value bs) (int_value retention_priority_info)
          c.intercore.outbound_queue in
      (put_answer r, record c { intercore = record c.intercore { outbound_queue = q } })
  put_log memory_error c = (refusal log_out_of_memory, c)
  put_log (raised message_too_large) c = (refusal log_too_large, c)
  put_log (raised e) c = (refusal log_rejected, c)

  unfoldable pub try_queue_startup_log : Value → Try
  try_queue_startup_log message c =
      put_log (serialize_and_validate_message (w.json_dumps c.moment) message)
        (record c { moment = suc c.moment })

  -- A second attempt after a rejection that is transient.
  abbrev pub or_once_more : Value → Admission × Core1 → Admission × Core1
  or_once_more message (admission false, c) = try_queue_startup_log message c
  or_once_more message r = r

  unfoldable pub admit_startup_log : Value → Try
  unfolding try_queue_startup_log
  admit_startup_log message c = or_once_more message (try_queue_startup_log message c)

  abbrev pub log_exn : Exn → LogExn
  log_exn too_large = log_rejected
  log_exn value_error = log_rejected
  log_exn Shared.memory_error = log_out_of_memory
  log_exn escape = log_escape

  -- The admission of a message once it is built.
  abbrev pub admit_built : Result Value × Core1 → Admission × Core1
  admit_built (ok message, c) = admit_startup_log message c
  admit_built (raise e, c) = (refusal (log_exn e), c)

  -- `bounded` builds the summary.
  abbrev pub or_bounded : Act Value → Admission × Core1 → Admission × Core1
  or_bounded bounded (refusal log_too_large, c) = admit_built (bounded c)
  or_bounded bounded (refusal log_out_of_memory, c) = admit_built (bounded c)
  or_bounded bounded r = r

  unfoldable pub admit_startup_log_with_fallback : Value → Act Value → Try
  unfolding admit_startup_log
  admit_startup_log_with_fallback message bounded c =
      or_bounded bounded (admit_startup_log message c)

  -- The gate of core1_main: it goes on only past an admitted log; false is the RuntimeError, or what else
  -- ends the core.
  abbrev pub is_admitted : Admission → Bool
  is_admitted (admission b) = b
  is_admitted (refusal e) = false

  unfoldable pub startup_gate : Value → Act Value → Core1 → Bool × Core1
  unfolding admit_startup_log_with_fallback
  startup_gate message bounded c =
      let (r, c') = admit_startup_log_with_fallback message bounded c in (is_admitted r, c')

  abbrev telemetry_message : ManagedDevice → Value → ℕ → Value → Value
  telemetry_message d reading u timestamp = dict_value (
      object (
        ("message_type", str_value "telemetry")
        ∷ ("uptime_ms", int_value u)
        ∷ ("timestamp", timestamp)
        ∷ ("device_id", str_value d.device_id)
        ∷ ("device", str_value d.device_type)
        ∷ ("name", text_or_none d.name)
        ∷ ("payload", reading)
        ∷ []))

  -- A ValueError, of which an OutboundMessageTooLargeError is one, discards the sample.
  abbrev discarding : Result Bool × Core1 → Result (Unit {0}) × Core1
  discarding (ok b, c) = (ok tt, c)
  discarding (raise value_error, c) = (ok tt, c)
  discarding (raise too_large, c) = (ok tt, c)
  discarding (raise e, c) = (raise e, c)

  -- The results but telemetry are only told on the console.
  unfoldable pub handle_device_result : ManagedDevice → DeviceResult → Act (Unit {0})
  handle_device_result d (telemetry reading recovered failures) = do
    (u, timestamp) ← message_time w
    λ c. discarding (
        put w kind_telemetry (telemetry_message d reading u timestamp) retention_priority_telemetry
          c)
  handle_device_result d r = pure tt

module _ (w : World) (message : Value) (bounded : Act Value) (c : Core1) where
  -- The bounded summary takes the place of the detailed log only where that is too large, or where the
  -- memory for it is missing; any other end of the detailed log is the end.
  pub with_fallback_cases :
      let (r, c') = admit_startup_log w message c in
      let next = admit_startup_log_with_fallback w message bounded c in
      (((r ≡ refusal log_too_large) ⊎ (r ≡ refusal log_out_of_memory))
        × (next ≡ admit_built w (bounded c')))
      ⊎ ((r ≢ refusal log_too_large) × (r ≢ refusal log_out_of_memory) × (next ≡ (r, c')))
  unfolding admit_startup_log_with_fallback
  with_fallback_cases = go (admit_startup_log w message c)
    where
      go :
          (m : Admission × Core1)
          → (((m.0 ≡ refusal log_too_large) ⊎ (m.0 ≡ refusal log_out_of_memory))
              × (or_bounded w bounded m ≡ admit_built w (bounded m.1)))
            ⊎ ((m.0 ≢ refusal log_too_large)
                × (m.0 ≢ refusal log_out_of_memory)
                × (or_bounded w bounded m ≡ m))
      go (refusal log_too_large, d) = inl (inl refl, refl)
      go (refusal log_out_of_memory, d) = inl (inr refl, refl)
      go (refusal log_rejected, d) = inr (λ e. cc, λ e. cc, refl)
      go (refusal log_escape, d) = inr (λ e. cc, λ e. cc, refl)
      go (admission b, d) = inr (λ e. cc, λ e. cc, refl)
