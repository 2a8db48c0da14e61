-- ===== src/Core0/Respond.antt =====
-- core0.py: the responses of Core 0 and their publication.
use text.Mathlib.Text.{◌==◌ as str_eq}
use pico_dualcore.Prelude.{
  ℕ, Bool, true, false, not, ◌&&◌, ◌||◌, String, Option, none, some, List, [], ◌∷◌, if◌then◌else◌,
}
use pico_dualcore.Value.{Value, bool_value, int_value, str_value, dict_value}
use pico_dualcore.Config.Check.{get}
use pico_dualcore.Message.{
  Serialized, payload, raised, memory_error, message_too_large, serialize_and_validate_message,
}
use pico_dualcore.CommandProtocol.{is_bounded_command_id}
use pico_dualcore.Intercore.Outbound.{Entry}
use pico_dualcore.MqttClient.Socket.{Bytes}
use pico_dualcore.Core0.World.{World, Loaded, loaded, malformed, exhausted}
use pico_dualcore.Core0.State.{
  Core0, Stamps, Response, Failure, response_too_large, response_invalid, too_large, escape, Result,
  ok, raise, Act, Done, pure, throw, act, ◌>>=◌, ◌>>◌,
}
use pico_dualcore.Core0.Basics.{
  object, error_of, text_or_none, uptime_ms, current_utc_timestamp, command_error,
}
use pico_dualcore.Core0.Handlers.{answer}
use pico_dualcore.Core0.Publish.{publish_entry, claim_wire_sequence}

abbrev pub failure_code : Failure → String
failure_code response_too_large = "response_too_large"
failure_code response_invalid = "response_invalid"

abbrev pub failure_message : Failure → String
failure_message response_too_large = "Command response exceeded the per-message size limit"
failure_message response_invalid = "Command response could not be serialized for transmission"

abbrev is_substitute_code : Value → Bool
is_substitute_code (str_value s) = str_eq s "response_too_large" || str_eq s "response_invalid"
is_substitute_code v = false

abbrev is_substitute_error : Value → Bool
is_substitute_error (dict_value error) = is_substitute_code (get "code" error)
is_substitute_error v = false

unfoldable pub is_response_substitute : Response → Bool
is_response_substitute r = not r.success && is_substitute_error r.result

-- The bounded error in place of a response that can never be sent.
unfoldable pub substitute_for : String → Option String → Bool → Failure → Response
unfolding command_error
substitute_for command_id command targeted failure =
    command_error command_id targeted (text_or_none command)
      (error_of (failure_code failure) (failure_message failure) [])

abbrev command_item : Option String → List (String × Value) → List (String × Value)
command_item none rest = rest
command_item (some command) rest = ("command", str_value command) ∷ rest

-- The payload of the message, without a command that is None.
abbrev response_payload : Response → Value
response_payload r = dict_value (
    object (
      ("command_id", str_value r.command_id)
      ∷ command_item r.command (
          ("targeted", bool_value r.targeted)
          ∷ ("success", bool_value r.success)
          ∷ ((if r.success then "data" else "error"), r.result)
          ∷ [])))

abbrev set_failure : Failure → Stamps → Stamps
set_failure failure s = record s { permanent_failure = some failure }

module _ (w : World) where
  unfoldable pub response_message : Response → Act Value
  unfolding uptime_ms current_utc_timestamp
  response_message r = do
    u ← (λ c. let (u, c') = uptime_ms w c in (ok u, c'))
    timestamp ← current_utc_timestamp w
    pure (
        dict_value (
          object (
            ("message_type", str_value "command_response")
            ∷ ("uptime_ms", int_value u)
            ∷ ("timestamp", timestamp)
            ∷ ("payload", response_payload r)
            ∷ [])))

  -- `stamp` changes what is stamped on the object that waits. False if it can never be sent.
  module _ (stamp : (Stamps → Stamps) → Core0 → Core0) where
    abbrev pub published : Result Done × Core0 → Result Bool × Core0
    published (ok u, c) = (ok true, c)
    published (raise too_large, c) = (ok false, stamp (set_failure response_too_large) c)
    published (raise e, c) = (raise e, c)

    unfoldable pub publish_frozen : ℕ → Bytes → Act Bool
    unfolding publish_entry
    publish_frozen sequence body c =
        published
          (publish_entry w (some w.config.mqtt_topic_command_response) false body (pure sequence) c)

    abbrev pub unsendable : Failure → Act Bool
    unsendable failure = do act (stamp (set_failure failure)); pure false

    unfoldable pub publish_serialized : ℕ → Serialized → Act Bool
    unfolding publish_frozen
    publish_serialized sequence (payload body) = do
      act (stamp (λ s. record s { frozen_bytes = some body }))
      publish_frozen sequence body
    publish_serialized sequence memory_error = throw escape
    publish_serialized sequence (raised message_too_large) = unsendable response_too_large
    publish_serialized sequence (raised e) = unsendable response_invalid

    -- The bytes are those of the first attempt.
    unfoldable pub publish_bytes : Response → ℕ → Option Bytes → Act Bool
    unfolding publish_frozen publish_serialized response_message
    publish_bytes r sequence (some body) = publish_frozen sequence body
    publish_bytes r sequence none = do
      message ← response_message r
      publish_serialized sequence (serialize_and_validate_message w.json_dumps message)

    -- _publish_core0_command_response, with the claim of the sequence before it.
    unfoldable pub publish_response : Response → Act Bool
    unfolding claim_wire_sequence publish_bytes
    publish_response r c =
        let (sequence, s, c') = claim_wire_sequence r.stamps c in
        publish_bytes r sequence s.frozen_bytes (stamp (λ _. s) c')

  abbrev pub map_head : (Response → Response) → List Response → List Response
  map_head f [] = []
  map_head f (r ∷ rs) = f r ∷ rs

  abbrev pub tail : List Response → List Response
  tail [] = []
  tail (r ∷ rs) = rs

  abbrev pub stamp_head : (Stamps → Stamps) → Core0 → Core0
  stamp_head f c = record c {
    pending_core0_responses =
        map_head (λ r. record r { stamps = f r.stamps }) c.pending_core0_responses;
  }

  abbrev pub replace_unsendable : Response → Response
  replace_unsendable r = if is_response_substitute r then r else elim r.stamps.permanent_failure [
    | none ↦ r
    | some failure ↦ substitute_for r.command_id r.command r.targeted failure
  ]

  -- What follows the publish of the oldest response: it is popped; or, if it can never be sent, its
  -- substitute takes its place.
  unfoldable pub serviced : Bool → Bool → Core0 → Core0
  unfolding is_response_substitute substitute_for
  serviced clears true c = record c {
    pending_core0_responses = tail c.pending_core0_responses;
    pending_reboot = if clears then none else c.pending_reboot;
  }
  serviced clears false c = record c {
    pending_core0_responses = map_head replace_unsendable c.pending_core0_responses;
  }

  abbrev pub service_oldest : List Response → Act Done
  service_oldest [] = pure tt
  service_oldest (r ∷ rs) = do
    sent ← publish_response stamp_head r
    act (serviced r.clears_pending_reboot sent)

  unfoldable pub service_pending_core0_response : Act Done
  unfolding publish_response serviced
  service_pending_core0_response c = service_oldest c.pending_core0_responses c

  abbrev pub is_true : Value → Bool
  is_true (bool_value b) = b
  is_true v = false

  abbrev pub identified : Value → Value → Bool → Act Done
  identified (str_value command_id) command targeted =
      if is_bounded_command_id (str_value command_id)
      then act (
          answer (
            command_error command_id targeted command
              (error_of "response_too_large" (failure_message response_too_large) [])))
      else pure tt
  identified v command targeted = pure tt

  abbrev pub owed : Value → Act Done
  owed (dict_value fs) =
      identified (get "command_id" fs) (get "command" fs) (is_true (get "targeted" fs))
  owed v = pure tt

  -- The substitute for an entry of the outbound queue that is discarded; what cannot be read has none.
  abbrev pub discarded_answer : Value → Act Done
  discarded_answer (dict_value doc) = owed (get "payload" doc)
  discarded_answer v = pure tt

  abbrev pub read_back : Loaded → Act Done
  read_back (loaded v) = discarded_answer v
  read_back malformed = pure tt
  read_back exhausted = throw escape

  unfoldable pub answer_discarded_command_response : Entry → Act Done
  unfolding answer command_error
  answer_discarded_command_response entry = read_back (w.json_loads entry.payload_bytes)
