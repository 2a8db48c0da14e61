-- ===== src/Intercore/Outbound/Serialize.antt =====
-- put and _serialize_with_recovery. Whether an attempt at json.dumps finds the memory it needs
-- depends on the heap, so the n-th attempt has its own `dumps n`.
pub mod Laws
mod Tests
use pico_dualcore.Prelude.{
  ℕ, zero, suc, ◌+◌, ◌≤◌, ◌<◌, Bool, true, false, String, Option, none, some, List, [], ◌∷◌, ◌≡◌,
  ◌⊎◌, inl, inr, refl, arith, if◌then◌else◌, length,
}
use pico_dualcore.Value.{Value, is_dict}
use pico_dualcore.Message.{
  SerializeError, unsupported_value, non_string_key, non_finite_float, message_too_large,
  serialization_error, Dumped, Serialized, payload, raised, memory_error,
  serialize_and_validate_message,
}
use pico_dualcore.Intercore.Outbound.{
  Entry, OutboundQueue, Act, pure, ◌>>=◌, ◌>>◌, Done, acquire_queue, release_queue, collect,
  Eviction, evict_one_eligible_locked,
}
use pico_dualcore.Intercore.Outbound.Admission.{is_evicted, admit_heap_governed}
use pico_dualcore.Intercore.Outbound.Lane.{validate_admission_metadata}

-- What _serialize_with_recovery returns or raises; `endless` is no result of the program.
pub data Recovered : Type 0 where
  serialized : List ℕ → Recovered
  invalid oversized_message unserializable heap_exhausted endless : Recovered

-- The handlers but that of MemoryError: ValueError, OutboundMessageTooLargeError, ValueError.
permanent : SerializeError → Act Recovered
permanent message_too_large q =
    (oversized_message, record q { oversized_rejected = q.oversized_rejected + 1 })
permanent serialization_error q =
    (unserializable, record q { serialization_rejected = q.serialization_rejected + 1 })
permanent other q = (invalid, q)

-- One attempt: `recovery` is the handler of MemoryError.
handled : Act Recovered → Serialized → Act Recovered
unfolding permanent
handled recovery (payload bs) = pure (serialized bs)
handled recovery (raised e) = permanent e
handled recovery memory_error = recovery

retry_after : Act Recovered → Bool → Act Recovered
retry_after again true = do collect; again
retry_after again false = pure heap_exhausted

module _ (dumps : ℕ → Value → Dumped) (message : Value) (retention_priority : ℕ) where
  evict_for_serializer : Act Bool
  evict_for_serializer = do
    acquire_queue
    eviction ← evict_one_eligible_locked retention_priority
    release_queue
    pure (is_evicted eviction)

  -- The rounds after gc.collect() was tried; `n` counts the attempts.
  displacing : ℕ → ℕ → Act Recovered
  unfolding handled retry_after evict_for_serializer
  displacing zero n = pure endless
  displacing (suc fuel) n =
      handled (evict_for_serializer >>= retry_after (displacing fuel (suc n)))
        (serialize_and_validate_message (dumps n) message)

  -- The first attempt, whose MemoryError leads to gc.collect() only; each later round but the last
  -- displaces an entry, so the length of the queue bounds them.
  pub serialize_with_recovery : Act Recovered
  unfolding handled displacing
  serialize_with_recovery q =
      handled (do collect; displacing (suc (length q.queue)) 1)
        (serialize_and_validate_message (dumps 0) message) q

-- What a put returns or raises; `no_end` is no result of the program.
pub data PutMessage : Type 0 where
  put_result : Bool → PutMessage
  put_invalid put_too_large put_out_of_memory no_end : PutMessage

abbrev concluded_message : Option Bool → PutMessage
concluded_message none = no_end
concluded_message (some b) = put_result b

module _ (free : ℕ → ℕ) (dumps : ℕ → Value → Dumped) (kind : String) (message : Value) where
  put_serialized : ℕ → Recovered → Act PutMessage
  put_serialized p (serialized bs) = do
    result ← admit_heap_governed free kind bs p
    pure (concluded_message result)
  put_serialized p invalid = pure put_invalid
  put_serialized p oversized_message = pure put_too_large
  put_serialized p unserializable = pure put_invalid
  put_serialized p heap_exhausted = pure put_out_of_memory
  put_serialized p endless = pure no_end

  put_accepted : Option ℕ → Act PutMessage
  unfolding serialize_with_recovery put_serialized
  put_accepted none = pure put_invalid
  put_accepted (some p) =
      if is_dict message
      then (do recovered ← serialize_with_recovery dumps message p; put_serialized p recovered)
      else pure put_invalid

  pub put : Value → Act PutMessage
  unfolding put_accepted
  put retention_priority = put_accepted (validate_admission_metadata kind retention_priority)
