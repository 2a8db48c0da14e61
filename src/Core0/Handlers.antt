-- ===== src/Core0/Handlers.antt =====
-- core0.py: the handlers of the four commands.
use Prim.Native.String as Text
use text.Mathlib.Text.{◌==◌ as str_eq}
use pico_dualcore.Prelude.{
  ℕ, suc, Bool, true, false, not, String, Option, none, some, List, [], ◌∷◌, if◌then◌else◌,
}
use Prim.Native.String.{count}
use pico_dualcore.Value.{Value, Fields, end, field, bool_value, str_value, list_value, dict_value}
use pico_dualcore.Config.Check.{lookup}
use pico_dualcore.CommandProtocol.{unknown_field_names}
use pico_dualcore.Intercore.Events.{put_event, PutEvent, put_true, put_false, value_error}
use pico_dualcore.Core0.World.{
  World, ConfigError, Managed, gives, config_error, escapes, WriteResult,
}
use pico_dualcore.Core0.State.{
  Core0, Response, RebootRequest, unstamped, escape, ok, Act, Done, pure, throw, act, ◌>>=◌,
}
use pico_dualcore.Core0.Basics.{object, texts, error_of, queue_core0_response, command_error}

-- v == s, for a value and a text.
abbrev pub is_text : String → Value → Bool
is_text s (str_value t) = str_eq t s
is_text s _ = false

infixr 65 ◌<>◌
abbrev ◌<>◌ : String → String → String
◌<>◌ s t = Text.◌++◌ s t

abbrev pub command_reboot : String
command_reboot = "reboot"

abbrev pub command_get_details : String
command_get_details = "get-details"

abbrev pub command_read_config : String
command_read_config = "read-config"

abbrev pub command_write_config : String
command_write_config = "write-config"

-- A response that is queued, whether or not there is room.
unfoldable pub answer : Response → Core0 → Core0
unfolding queue_core0_response
answer r c = (queue_core0_response r c).1

-- A response with the name of a command as such.
abbrev pub named : String → Bool → String → Bool → Value → Response
named command_id targeted command success result = record {
  command_id = command_id;
  command = some command;
  success = success;
  targeted = targeted;
  result = result;
  clears_pending_reboot = false;
  stamps = unstamped;
}

abbrev pub is_end : Fields → Bool
is_end end = true
is_end (field k v fs) = false

abbrev pub unknown_fields_of : List String → List (String × Value)
unknown_fields_of names = ("unknown_fields", list_value (texts names)) ∷ []

unfoldable pub unknown_fields_error : String → String → Bool → Fields → Response
unfolding unknown_field_names
unknown_fields_error command command_id targeted payload = named command_id targeted command false (
    error_of "unknown_fields" (command <> " payload contains unknown fields")
      (unknown_fields_of (unknown_field_names [] payload)))

module _ (w : World) (command_id : String) (targeted : Bool) where
  -- The reboot is held, unless one is already.
  unfoldable pub hold_reboot : Option RebootRequest → Core0 → Core0
  unfolding answer
  hold_reboot (some request) c =
      answer
        (named command_id targeted command_reboot false
          (error_of "reboot_already_pending" "A reboot is already pending" []))
        c
  hold_reboot none c = record c {
    pending_reboot = some (record {
      command_id = command_id;
      targeted = targeted;
      answer_queued = false;
      stamps = unstamped;
    });
  }

  unfoldable pub handle_reboot_command : Fields → Core0 → Core0
  unfolding answer unknown_fields_error hold_reboot
  handle_reboot_command (field k v fs) c =
      answer (unknown_fields_error command_reboot command_id targeted (field k v fs)) c
  handle_reboot_command end c = hold_reboot c.pending_reboot c

  abbrev pub details_event : Value
  details_event = dict_value (
      object (
        ("command_id", str_value command_id)
        ∷ ("command", str_value command_get_details)
        ∷ ("payload", dict_value end)
        ∷ ("targeted", bool_value targeted)
        ∷ []))

  -- The ValueError of put() is for what is no dictionary.
  unfoldable pub dispatched : PutEvent → Act Done
  unfolding answer
  dispatched put_true = pure tt
  dispatched put_false = act (
      answer (
        named command_id targeted command_get_details false (
          error_of "intercore_event_queue_memory_pressure"
            "Insufficient free heap to queue the Core 1 event" [])))
  dispatched value_error = throw escape

  unfoldable pub handle_get_details_command : Fields → Act Done
  unfolding answer unknown_fields_error dispatched
  handle_get_details_command (field k v fs) =
      act (answer (unknown_fields_error command_get_details command_id targeted (field k v fs)))
  handle_get_details_command end = λ c.
      let (put, q) = put_event w.free details_event c.intercore.event_queue in
      dispatched put (record c { intercore = record c.intercore { event_queue = q } })

  -- What the configuration manager is asked, at this moment.
  abbrev pub ask : {A : Type 0} → (ℕ → A) → Act A
  ask reading c = (ok (reading c.moment), record c { moment = suc c.moment })

  unfoldable pub read_answer : Managed Value → Act Done
  unfolding answer command_error
  read_answer (gives config) = do
    reboot_required ← ask w.reboot_required
    act (
        answer (
          named command_id targeted command_read_config true (
            dict_value (
              object (("config", config) ∷ ("reboot_required", bool_value reboot_required) ∷ [])))))
  read_answer (config_error err) = act (
      answer (
        command_error command_id targeted (str_value command_read_config)
          (error_of "config_unavailable" err.text [])))
  read_answer escapes = throw escape

  unfoldable pub handle_read_config_command : Fields → Act Done
  unfolding answer unknown_fields_error read_answer
  handle_read_config_command (field k v fs) =
      act (answer (unknown_fields_error command_read_config command_id targeted (field k v fs)))
  handle_read_config_command end = do found ← ask w.read_persisted; read_answer found

  abbrev pub classification_unchanged : String
  classification_unchanged = "UNCHANGED"

  unfoldable pub write_config_success : Bool → WriteResult → Response
  write_config_success reboot_required result =
      named command_id targeted command_write_config true (
        dict_value (
          object (
            (
              "configuration_changed",
              bool_value (not (str_eq result.classification classification_unchanged)),
            )
            ∷ ("classification", str_value result.classification)
            ∷ ("reboot_required", bool_value reboot_required)
            ∷ ("changes", result.changes)
            ∷ [])))

  abbrev pub or_invalid : Option String → String
  or_invalid none = "invalid_config"
  or_invalid (some code) = code

  -- error.update(details): a key that is there gets the new value, another comes last.
  unfoldable pub set_key : Value → Value → Fields → Fields
  set_key k v end = field k v end
  set_key k v (field (str_value j) u fs) =
      if same k j then field k v fs else field (str_value j) u (set_key k v fs)
    where
      same : Value → String → Bool
      same (str_value s) j = str_eq s j
      same _ j = false
  set_key k v (field j u fs) = field j u (set_key k v fs)

  unfoldable pub updated : Fields → Fields → Fields
  unfolding set_key
  updated fs end = fs
  updated fs (field k v more) = updated (set_key k v fs) more

  abbrev pub if_any : List String → List (String × Value)
  if_any [] = []
  if_any (s ∷ ss) = unknown_fields_of (s ∷ ss)

  unfoldable pub write_error : ConfigError → Value
  unfolding updated
  write_error err = dict_value (
      updated
        (object (
          ("code", str_value (or_invalid err.code))
          ∷ ("message", str_value err.text)
          ∷ if_any err.unknown_fields))
        err.details)

  unfoldable pub write_answer : Managed WriteResult → Act Done
  unfolding answer command_error write_error write_config_success
  write_answer (gives result) = do
    reboot_required ← ask w.reboot_required
    act (answer (write_config_success reboot_required result))
  write_answer (config_error err) = act (
      answer (command_error command_id targeted (str_value command_write_config) (write_error err)))
  write_answer escapes = throw escape

  abbrev pub write_refused : Value → Act Done
  write_refused error =
      act (answer (command_error command_id targeted (str_value command_write_config) error))

  unfoldable pub write_candidate : Option Value → Act Done
  unfolding answer command_error write_answer
  write_candidate none =
      write_refused
        (error_of "missing_key" "write-config payload is missing the required config key" [])
  write_candidate (some (dict_value candidate)) = do
    result ← ask (λ n. w.begin_write n candidate)
    write_answer result
  write_candidate (some v) =
      write_refused (error_of "invalid_value" "write-config payload config must be an object" [])

  unfoldable pub write_checked : List String → Fields → Act Done
  unfolding answer command_error write_candidate
  write_checked [] payload = write_candidate (lookup "config" payload)
  write_checked (s ∷ ss) payload = write_refused (
      error_of "unknown_fields" "write-config payload contains unknown fields"
        (unknown_fields_of (s ∷ ss)))

  unfoldable pub handle_write_config_command : Fields → Act Done
  unfolding write_checked unknown_field_names
  handle_write_config_command payload =
      write_checked (unknown_field_names ("config" ∷ []) payload) payload
