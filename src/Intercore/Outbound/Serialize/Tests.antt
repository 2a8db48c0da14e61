-- ===== src/Intercore/Outbound/Serialize/Tests.antt =====
-- A serializer that finds no memory before its third attempt, over a lane with two entries.
use pico_dualcore.Prelude.{ℕ, false, none, [], ◌∷◌, arith, if◌then◌else◌, ltb}
use pico_dualcore.Value.{Value, dict_value, end}
use pico_dualcore.Message.{Dumped, bytes, out_of_memory}
use pico_dualcore.Intercore.Outbound.{Entry, OutboundQueue}
use pico_dualcore.Intercore.Outbound.Invariant.{IsIdle}
use pico_dualcore.Intercore.Outbound.Serialize.{serialize_with_recovery}
use pico_dualcore.Intercore.Outbound.Serialize.Laws.{Outcome, serialize_with_recovery-Outcome}

abbrev entry : ℕ → ℕ → Entry
entry ident p = record {
  ident = ident;
  kind = "telemetry";
  retention_priority = p;
  payload_bytes = 1 ∷ 2 ∷ [];
}

abbrev crowded : OutboundQueue
crowded = record {
  minimum_free_heap_bytes = 100;
  preferred_free_heap_bytes = 200;
  max_messages = none;
  queue = entry 0 40 ∷ entry 1 50 ∷ [];
  in_flight = none;
  high_watermark = 2;
  high_watermark_bytes = 4;
  queued_bytes = 4;
  messages_evicted = 0;
  telemetry_evicted = 0;
  messages_rejected = 0;
  serialization_rejected = 0;
  oversized_rejected = 0;
  oversized_discarded = 0;
  next_ident = 2;
  measured = 0;
  queue_held = false;
  admission_held = false;
  breach = false;
}

crowded-IsIdle : IsIdle crowded
crowded-IsIdle = ground arith

abbrev third_attempt : ℕ → Value → Dumped
third_attempt n v = if ltb n 2 then out_of_memory else bytes (123 ∷ 125 ∷ [])

serialize_with_recovery-Outcome_example :
    let (r, q) = serialize_with_recovery third_attempt (dict_value end) 30 crowded in
    Outcome 30 crowded r q
serialize_with_recovery-Outcome_example =
    serialize_with_recovery-Outcome third_attempt (dict_value end) 30 (omega arith) crowded
      crowded-IsIdle
