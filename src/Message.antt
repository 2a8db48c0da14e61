-- ===== src/Message.antt =====
-- message_protocol.py, message_serializer.py: which values go on the wire, and how a message is
-- turned into bytes. json.dumps is not part of the repository: `dumps` is a parameter, the UTF-8
-- bytes of the text or what it raises.
mod Tests
pub mod Safe
pub mod Time
use pico_dualcore.Prelude.{
  ℕ, Bool, true, false, ◌&&◌, Option, none, some, List, if◌then◌else◌, ltb, length,
}
use pico_dualcore.Value.{
  Value, Items, Fields, none_value, bool_value, int_value, neg_value, finite_float, nan_float,
  infinite_float, str_value, list_value, tuple_value, dict_value, bytes_value, opaque_value, nil,
  cons, end, field, is_str,
}

unfoldable mutual
  pub is_json_safe : Value → Bool
  is_json_safe none_value = true
  is_json_safe (bool_value b) = true
  is_json_safe (int_value n) = true
  is_json_safe (neg_value n) = true
  is_json_safe (finite_float b n k) = true
  is_json_safe nan_float = false
  is_json_safe infinite_float = false
  is_json_safe (str_value s) = true
  is_json_safe (list_value xs) = items_safe xs
  is_json_safe (tuple_value xs) = items_safe xs
  is_json_safe (dict_value fs) = fields_safe fs
  is_json_safe (bytes_value bs) = false
  is_json_safe opaque_value = false

  pub items_safe : Items → Bool
  items_safe nil = true
  items_safe (cons x xs) = let rest = items_safe xs in if is_json_safe x then rest else false

  pub fields_safe : Fields → Bool
  fields_safe end = true
  fields_safe (field key item fs) =
      let rest = fields_safe fs in if is_str key && is_json_safe item then rest else false

-- The subclasses of SerializationError, and itself.
pub data SerializeError : Type 0 where
  unsupported_value non_string_key non_finite_float message_too_large serialization_error :
      SerializeError

abbrev or_next : Option SerializeError → Option SerializeError → Option SerializeError
or_next none next = next
or_next (some e) next = some e

-- What _validate_value raises first, if anything; the path in the message is left out.
unfoldable mutual
  pub validate_value : Value → Option SerializeError
  validate_value none_value = none
  validate_value (bool_value b) = none
  validate_value (int_value n) = none
  validate_value (neg_value n) = none
  validate_value (finite_float b n k) = none
  validate_value nan_float = some non_finite_float
  validate_value infinite_float = some non_finite_float
  validate_value (str_value s) = none
  validate_value (list_value xs) = validate_items xs
  validate_value (tuple_value xs) = validate_items xs
  validate_value (dict_value fs) = validate_fields fs
  validate_value (bytes_value bs) = some unsupported_value
  validate_value opaque_value = some unsupported_value

  pub validate_items : Items → Option SerializeError
  validate_items nil = none
  validate_items (cons x xs) = or_next (validate_value x) (validate_items xs)

  pub validate_fields : Fields → Option SerializeError
  validate_fields end = none
  validate_fields (field key item fs) =
      let rest = or_next (validate_value item) (validate_fields fs) in
      if is_str key then rest else some non_string_key

abbrev pub max_outbound_message_bytes : ℕ
max_outbound_message_bytes = 16384

-- What json.dumps and encode do: bytes, a MemoryError, or another exception.
pub data Dumped : Type 0 where
  bytes : List ℕ → Dumped
  out_of_memory : Dumped
  failed : Dumped

pub data Serialized : Type 0 where
  payload : List ℕ → Serialized
  raised : SerializeError → Serialized
  memory_error : Serialized

sized : Dumped → Serialized
sized (bytes bs) =
    if ltb max_outbound_message_bytes (length bs) then raised message_too_large else payload bs
sized out_of_memory = memory_error
sized failed = raised serialization_error

refused_or : Option SerializeError → Serialized → Serialized
refused_or none next = next
refused_or (some e) next = raised e

module _ (dumps : Value → Dumped) where
  unfoldable pub serialize_and_validate_message : Value → Serialized
  unfolding sized refused_or
  serialize_and_validate_message message =
      let checked = if is_json_safe message then none else validate_value message in
      refused_or checked (sized (dumps message))
