-- ===== src/Intercore/Outbound/Lane.antt =====
-- The operations of OutboundQueue that its clients call.
pub mod Laws
pub mod Flight
use text.Mathlib.Text.{◌==◌ as str_eq}
use pico_dualcore.Prelude.{
  ℕ, ◌+◌, ◌-◌, Bool, true, false, ◌&&◌, ◌||◌, not, String, Option, none, some, List, [], ◌∷◌,
  if◌then◌else◌, ltb, leb, ◌==◌, length, is_some,
}
use pico_dualcore.Value.{Value, int_value, bytes_value}
use pico_dualcore.Intercore.Outbound.{
  Entry, OutboundQueue, Act, pure, ◌>>=◌, ◌>>◌, Done, kind_telemetry, kind_command_response,
  kind_health, kind_log, retention_priority_min, retention_priority_max, depth,
}
use pico_dualcore.Intercore.Outbound.Admission.{admit_heap_governed}

-- 16 KiB, of message_serializer.py.
abbrev pub max_outbound_message_bytes : ℕ
max_outbound_message_bytes = 16384

pub known_kind : String → Bool
known_kind kind =
    str_eq kind kind_telemetry
    || (str_eq kind kind_command_response || (str_eq kind kind_health || str_eq kind kind_log))

-- What a put returns or raises; `no_fuel` is no result of the program.
pub data Put : Type 0 where
  admitted rejected value_error too_large no_fuel : Put

-- The priority of an admission whose metadata are accepted; `none` is the ValueError.
pub validate_admission_metadata : String → Value → Option ℕ
unfolding known_kind
validate_admission_metadata kind (int_value n) =
    if known_kind kind && (leb retention_priority_min n && leb n retention_priority_max)
    then some n
    else none
validate_admission_metadata kind _ = none

abbrev concluded : Option Bool → Put
concluded none = no_fuel
concluded (some true) = admitted
concluded (some false) = rejected

oversized : Act Put
oversized q = (too_large, record q { oversized_rejected = q.oversized_rejected + 1 })

module _ (free : ℕ → ℕ) (kind : String) where
  put_bytes : Value → ℕ → Act Put
  unfolding oversized
  put_bytes (bytes_value payload_bytes) p =
      if ltb max_outbound_message_bytes (length payload_bytes)
      then oversized
      else do result ← admit_heap_governed free kind payload_bytes p; pure (concluded result)
  put_bytes _ p = pure value_error

  put_validated : Value → Option ℕ → Act Put
  unfolding put_bytes
  put_validated payload none = pure value_error
  put_validated payload (some p) = put_bytes payload p

  unfoldable pub put_with_kind : Value → Value → Act Put
  unfolding put_validated validate_admission_metadata
  put_with_kind payload retention_priority =
      put_validated payload (validate_admission_metadata kind retention_priority)

take_from : Option Entry → List Entry → Act (Option Entry)
take_from (some e) es q = (some e, q)
take_from none [] q = (none, q)
take_from none (e ∷ es) q = (some e, record q { queue = es; in_flight = some e })

pub take : Act (Option Entry)
unfolding take_from
take q = take_from q.in_flight q.queue q

complete : Option Entry → Entry → Bool → Act Bool
complete none entry discarded q = (false, q)
complete (some e) entry discarded q =
    if e.ident == entry.ident
    then (
      true,
      record q {
        in_flight = none;
        queued_bytes = q.queued_bytes - length entry.payload_bytes;
        oversized_discarded =
            if discarded then q.oversized_discarded + 1 else q.oversized_discarded;
      },
    )
    else (false, q)

-- `self._in_flight is entry` compares the identities of the objects.
pub complete_in_flight : Entry → Bool → Act Bool
unfolding complete
complete_in_flight entry discarded q = complete q.in_flight entry discarded q

unfoldable pub has_in_flight : OutboundQueue → Bool
has_in_flight q = is_some q.in_flight

pub get_depth : OutboundQueue → ℕ
get_depth q = depth q
