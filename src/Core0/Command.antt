-- ===== src/Core0/Command.antt =====
-- core0.py: the callback of MQTT messages, with the staged validation of a command.
use text.Mathlib.Text.{◌==◌ as str_eq}
use pico_dualcore.Prelude.{
  Bool, false, not, ◌&&◌, String, Option, none, some, List, [], ◌∷◌, if◌then◌else◌, ltb, leb,
  length, ◌==◌,
}
use Prim.Native.String.{count}
use pico_dualcore.Value.{Value, Fields, int_value, str_value, dict_value}
use pico_dualcore.Config.Check.{lookup, get, is_empty}
use pico_dualcore.CommandProtocol.{
  is_bounded_command_id, unknown_field_names, command_envelope_keys, max_command_length,
  is_supported_command, broadcast_target,
}
use pico_dualcore.MqttClient.Socket.{Bytes}
use pico_dualcore.Core0.World.{World, Loaded, loaded, malformed, exhausted}
use pico_dualcore.Core0.State.{
  escape, ok, Act, Done, pure, throw, act, max_pending_core0_responses, message_schema_version,
}
use pico_dualcore.Core0.Basics.{
  error_of, target_matches, is_recent_command_id, remember_command_id, command_error,
}
use pico_dualcore.Core0.Handlers.{
  command_reboot, command_get_details, command_read_config, command_write_config, answer,
  unknown_fields_of, handle_reboot_command, handle_get_details_command, handle_read_config_command,
  handle_write_config_command, is_text,
}
use pico_dualcore.Core0.Info.{handle_info_response}

module _ (w : World) (command_id : String) (targeted : Bool) where
  -- The dispatch by the name of a command that is supported; `broadcast` is its target.
  unfoldable pub dispatch : Bool → String → Fields → Act Done
  unfolding handle_reboot_command handle_get_details_command handle_read_config_command
      handle_write_config_command
  dispatch broadcast command payload =
      if str_eq command command_write_config && broadcast
      then pure tt
      else if str_eq command command_reboot
      then act (handle_reboot_command w command_id targeted payload)
      else if str_eq command command_get_details
      then handle_get_details_command w command_id targeted payload
      else if str_eq command command_read_config
      then handle_read_config_command w command_id targeted payload
      else if str_eq command command_write_config
      then handle_write_config_command w command_id targeted payload
      else pure tt

  abbrev refuse : Value → String → String → List (String × Value) → Act Done
  refuse command code message more =
      act (answer (command_error command_id targeted command (error_of code message more)))

  unfoldable pub with_object : Bool → String → Value → Act Done
  unfolding answer command_error dispatch
  with_object broadcast command (dict_value payload) =
      if is_supported_command command
      then dispatch broadcast command payload
      else refuse (str_value command) "unsupported_command" "Unsupported command" []
  with_object broadcast command v =
      refuse (str_value command) "invalid_payload" "command payload must be an object" []

  unfoldable pub with_payload : Bool → String → Option Value → Act Done
  unfolding answer command_error with_object
  with_payload broadcast command none =
      refuse (str_value command) "invalid_payload" "command payload is required" []
  with_payload broadcast command (some payload) =
      if ltb max_command_length (count command)
      then refuse (str_value command) "invalid_command"
          "Command name exceeds the 32 character bound" []
      else with_object broadcast command payload

  unfoldable pub with_command : Bool → Fields → Value → Act Done
  unfolding answer command_error with_payload
  with_command broadcast doc (str_value command) =
      if is_empty command
      then refuse (str_value command) "invalid_command" "Command must be a non-empty string" []
      else with_payload broadcast command (lookup "payload" doc)
  with_command broadcast doc command =
      refuse command "invalid_command" "Command must be a non-empty string" []

  -- What follows the claim of the id.
  unfoldable pub claimed : Bool → Fields → List String → Act Done
  unfolding answer command_error with_command
  claimed broadcast doc [] = with_command broadcast doc (get "command" doc)
  claimed broadcast doc (s ∷ ss) =
      refuse (get "command" doc) "unknown_fields" "Message contains unknown fields"
        (unknown_fields_of (s ∷ ss))

module _ (w : World) where
  -- The duplicate and the full queue come before the claim of the id.
  unfoldable pub admit : String → Bool → Fields → Act Done
  unfolding is_recent_command_id remember_command_id claimed unknown_field_names
  admit command_id broadcast doc c =
      if is_recent_command_id command_id c
      then (ok tt, c)
      else if leb max_pending_core0_responses (length c.pending_core0_responses)
      then (ok tt, c)
      else claimed w command_id (not broadcast) broadcast doc
          (unknown_field_names command_envelope_keys doc) (remember_command_id command_id c)

  unfoldable pub with_id : Bool → Fields → Value → Act Done
  unfolding admit
  with_id broadcast doc (str_value command_id) =
      if is_bounded_command_id (str_value command_id)
      then admit command_id broadcast doc
      else pure tt
  with_id broadcast doc v = pure tt

  unfoldable pub on_command : Fields → Act Done
  unfolding target_matches with_id
  on_command doc c =
      if target_matches w (w.ip_address c.moment) (get "target" doc)
      then with_id (is_text broadcast_target (get "target" doc)) doc (get "command_id" doc) c
      else (ok tt, c)

  abbrev pub is_version : Value → Bool
  is_version (int_value n) = n == message_schema_version
  is_version _ = false

  -- The version gate, and the dispatch by the topic.
  unfoldable pub on_document : String → Fields → Act Done
  unfolding handle_info_response on_command
  on_document topic doc =
      if is_version (get "message_schema_version" doc)
      then if str_eq topic w.config.mqtt_topic_info_response
        then if is_text "info_response" (get "message_type" doc)
          then act (handle_info_response w doc)
          else pure tt
        else if str_eq topic w.config.mqtt_topic_command
            && is_text "command" (get "message_type" doc)
        then on_command doc
        else pure tt
      else pure tt

  unfoldable pub on_loaded : String → Loaded → Act Done
  unfolding on_document
  on_loaded topic (loaded (dict_value doc)) = on_document topic doc
  on_loaded topic (loaded v) = pure tt
  on_loaded topic malformed = pure tt
  on_loaded topic exhausted = throw escape

  unfoldable pub on_mqtt_message : Bytes → Bytes → Act Done
  unfolding on_loaded
  on_mqtt_message topic payload = elim (w.decode topic) [
    | none ↦ pure tt
    | some text ↦ on_loaded text (w.json_loads payload)
  ]
