-- ===== src/Core1/Response.antt =====
-- core1.py: the responses to commands that Core 1 owns, and what stands in for one that cannot be sent.
pub mod Laws
use text.Mathlib.Text.{◌==◌ as str_eq}
use pico_dualcore.Prelude.{
  ℕ, Bool, true, false, not, ◌&&◌, String, Option, none, some, List, [], ◌∷◌, if◌then◌else◌,
  is_some,
}
use pico_dualcore.Value.{
  Value, Items, nil, cons, Fields, end, field, none_value, bool_value, int_value, str_value,
  list_value, dict_value,
}
use pico_dualcore.Config.Check.{lookup, get, has_key, is_key}
use pico_dualcore.Intercore.Outbound.{
  kind_telemetry, kind_command_response, retention_priority_critical,
}
use pico_dualcore.Intercore.Container.{InterCore}
use pico_dualcore.Intercore.Events.{take_event}
use pico_dualcore.Core0.Basics.{object}
use pico_dualcore.Core1.State.{
  World, Core1, Exn, too_large, value_error, memory_error, escape, Result, ok, raise, Act, pure,
  throw, ◌>>=◌, message_time, put,
}

-- The payload of a response, with the time that the message was built at; `result` is the data of a
-- success, and the error otherwise.
pub record Response : Type 0 where
  pub command_id : Value
  pub command : Value
  pub targeted : Value
  pub success : Bool
  pub result : Value
  pub uptime_ms : ℕ
  pub timestamp : Value

abbrev pub response_message : Response → Value
response_message r = dict_value (
    object (
      ("message_type", str_value "command_response")
      ∷ ("uptime_ms", int_value r.uptime_ms)
      ∷ ("timestamp", r.timestamp)
      ∷ (
        "payload",
        dict_value (
            object (
              ("command_id", r.command_id)
              ∷ ("command", r.command)
              ∷ ("targeted", r.targeted)
              ∷ ("success", bool_value r.success)
              ∷ ((if r.success then "data" else "error"), r.result)
              ∷ [])),
      )
      ∷ []))

abbrev pub is_named : String → Value → Bool
is_named s (str_value t) = str_eq t s
is_named s v = false

-- The fields but one.
unfoldable pub without_key : String → Fields → Fields
without_key k end = end
without_key k (field j v fs) =
    let rest = without_key k fs in if is_key k j then rest else field j v rest

abbrev pub items_of : Value → Items
items_of (list_value vs) = vs
items_of v = nil

abbrev pub snoc : Items → Value → Items
snoc nil v = cons v nil
snoc (cons u us) v = cons u (snoc us v)

-- data[k] = v: in place of what is there, or last.
unfoldable pub store_key : String → Value → Fields → Fields
store_key k v end = field (str_value k) v end
store_key k v (field j u fs) =
    let rest = store_key k v fs in if is_key k j then field j v fs else field j u rest

-- The data without the section, whose name is added to omitted_sections.
unfoldable pub omit : String → Fields → Fields
unfolding without_key store_key
omit section fs =
    let less = without_key section fs in
    store_key "omitted_sections"
      (list_value (snoc (items_of (get "omitted_sections" less)) (str_value section))) less

abbrev pub section_data : Response → Fields
section_data r = go r.success r.result
  where
    go : Bool → Value → Fields
    go true (dict_value fs) = fs
    go b v = end

-- _GET_DETAILS_FALLBACK_DROP_ORDER
abbrev pub fallback_drop_order : List String
fallback_drop_order = "device_status" ∷ "devices" ∷ []

abbrev pub targeted_of : Option Value → Value
targeted_of none = bool_value false
targeted_of (some v) = v

module _ (w : World) where
  -- _build_command_response, with the fields of the event or of an earlier response.
  unfoldable pub build_command_response : Value → Value → Value → Bool → Value → Act Response
  build_command_response command_id command targeted success result = do
    (u, t) ← message_time w
    pure (record {
      command_id = command_id;
      command = command;
      targeted = targeted;
      success = success;
      result = result;
      uptime_ms = u;
      timestamp = t;
    })

  -- The same command, answered otherwise.
  abbrev pub rebuild : Response → Bool → Value → Act Response
  rebuild r = build_command_response r.command_id r.command r.targeted

  unfoldable pub try_queue_response : Response → Act Bool
  try_queue_response r =
      put w kind_command_response (response_message r) retention_priority_critical

  abbrev pub error_of : String → String → Value
  error_of code message =
      dict_value (object (("code", str_value code) ∷ ("message", str_value message) ∷ []))

  -- What is still pending once an attempt has gone well.
  abbrev pub unless_admitted : Response → Bool → Act (Option Response)
  unless_admitted r true = pure none
  unless_admitted r false = pure (some r)

  unfoldable pub admit_substitute : Response → String → String → Act (Option Response)
  unfolding build_command_response try_queue_response
  admit_substitute r code message = do
    substitute ← rebuild r false (error_of code message)
    queued ← try_queue_response substitute
    unless_admitted substitute queued

  abbrev pub too_large_substitute : Response → Act (Option Response)
  too_large_substitute r =
      admit_substitute r "response_too_large" "Command response exceeded the per-message size limit"

  abbrev pub invalid_substitute : Response → Act (Option Response)
  invalid_substitute r =
      admit_substitute r "response_invalid"
        "Command response could not be serialized for transmission"

  -- What an attempt to queue a response comes to; `exhausted` is the handler of the MemoryError.
  abbrev pub attempted :
      Response → Act (Option Response) → Result Bool × Core1 → Result (Option Response) × Core1
  attempted r exhausted (ok queued, c) = unless_admitted r queued c
  attempted r exhausted (raise too_large, c) = too_large_substitute r c
  attempted r exhausted (raise value_error, c) = invalid_substitute r c
  attempted r exhausted (raise memory_error, c) = exhausted c
  attempted r exhausted (raise escape, c) = (raise escape, c)

  -- _build_get_details_response_without
  unfoldable pub build_without : String → Response → Act Response
  unfolding build_command_response omit
  build_without section r = rebuild r true (dict_value (omit section (section_data r)))

  -- One section less at a time; the substitute is that of the response at the start.
  unfoldable pub drop_sections : Response → List String → Response → Act (Option Response)
  unfolding build_without try_queue_response admit_substitute
  drop_sections first [] candidate = invalid_substitute first
  drop_sections first (section ∷ sections) candidate =
      let skipped = drop_sections first sections candidate in
      let smaller : Response → Act (Option Response) =
        λ r c. attempted r (drop_sections first sections r) (try_queue_response r c) in
      if has_key section (section_data candidate)
      then build_without section candidate >>= smaller
      else skipped

  -- _admit_after_serialization_memory_error
  unfoldable pub admit_after_memory_error : Response → Act (Option Response)
  unfolding drop_sections admit_substitute
  admit_after_memory_error r =
      if is_named "get-details" r.command
      then drop_sections r fallback_drop_order r
      else invalid_substitute r

  unfoldable pub admit_or_substitute_command_response : Response → Act (Option Response)
  unfolding try_queue_response admit_after_memory_error admit_substitute
  admit_or_substitute_command_response r c =
      attempted r (admit_after_memory_error r) (try_queue_response r c)

  -- Whether the details are there, and what they or the error are.
  abbrev pub told : Option (Act Value) → Act (Bool × Value)
  told none =
      pure (false, error_of "system_information_unavailable" "System information is unavailable")
  told (some collect) = do details ← collect; pure (true, details)

  abbrev pub respond_with : Fields → Bool × Value → Act (Option Response)
  respond_with event (success, result) = do
    r ←
        build_command_response (get "command_id" event) (get "command" event)
          (targeted_of (lookup "targeted" event)) success result
    pure (some r)

  -- The response to an event, by how the system information is collected, if there is any.
  unfoldable pub respond_to : Option (Act Value) → Option Value → Act (Option Response)
  unfolding build_command_response
  respond_to system_information none = pure none
  respond_to system_information (some (dict_value event)) =
      if is_named "get-details" (get "command" event)
      then told system_information >>= respond_with event
      else pure none
  respond_to system_information (some v) = throw escape

  unfoldable pub process_intercore_event : Option (Act Value) → Act (Option Response)
  unfolding respond_to
  process_intercore_event system_information c =
      let (event, q) = take_event c.intercore.event_queue in
      respond_to system_information event
        (record c { intercore = record c.intercore { event_queue = q } })
