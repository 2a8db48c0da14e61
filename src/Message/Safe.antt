-- ===== src/Message/Safe.antt =====
-- The allocation-light pass, and the validator that names the error.
use pico_dualcore.Prelude.{
  ℕ, ◌≤◌, true, false, Option, none, some, List, ◌≡◌, ◌↔◌, refl, arith, length, is_some, not,
}
use pico_dualcore.Value.{
  Value, Items, Fields, none_value, bool_value, int_value, neg_value, finite_float, nan_float,
  infinite_float, str_value, list_value, tuple_value, dict_value, bytes_value, opaque_value, nil,
  cons, end, field,
}
use pico_dualcore.Message.{
  is_json_safe, items_safe, fields_safe, SerializeError, validate_value, validate_items,
  validate_fields, Dumped, Serialized, payload, serialize_and_validate_message,
  max_outbound_message_bytes,
}

mutual
  unfolding is_json_safe items_safe fields_safe validate_value validate_items validate_fields

  agrees : (v : Value) → is_some (validate_value v) ≡ not (is_json_safe v)
  agrees none_value = refl
  agrees (bool_value b) = refl
  agrees (int_value n) = refl
  agrees (neg_value n) = refl
  agrees (finite_float b n k) = refl
  agrees nan_float = refl
  agrees infinite_float = refl
  agrees (str_value s) = refl
  agrees (list_value xs) = items_agree xs
  agrees (tuple_value xs) = items_agree xs
  agrees (dict_value fs) = fields_agree fs
  agrees (bytes_value bs) = refl
  agrees opaque_value = refl

  items_agree : (xs : Items) → is_some (validate_items xs) ≡ not (items_safe xs)
  items_agree nil = refl
  items_agree (cons x xs) = ground (arith, agrees x, items_agree xs)

  fields_agree : (fs : Fields) → is_some (validate_fields fs) ≡ not (fields_safe fs)
  fields_agree end = refl
  fields_agree (field key item fs) = ground (arith, agrees item, fields_agree fs)

-- A value passes _validate_value exactly when is_json_safe accepts it, at any nesting of lists,
-- tuples and dictionaries.
pub validate_value_iff : (v : Value) → (validate_value v ≡ none) ↔ (is_json_safe v ≡ true)
validate_value_iff v = (λ h. ground (arith, agrees v), λ h. ground (arith, agrees v))

-- What is serialized is JSON-safe and at most 16 KiB long; a value that is not JSON-safe is
-- refused with the error that the validator names, whatever json.dumps would do.
pub serialize_lem :
    (dumps : Value → Dumped) (v : Value)
    → ((bs : List ℕ)
        → serialize_and_validate_message dumps v ≡ payload bs
        → (is_json_safe v ≡ true) × (length bs ≤ max_outbound_message_bytes))
      × (is_json_safe v ≡ false
          → (e : SerializeError) × (validate_value v ≡ some e)
            × (serialize_and_validate_message dumps v ≡ Serialized.raised e))
unfolding serialize_and_validate_message
serialize_lem dumps v = (λ bs h. ground (arith, agrees v), λ h. named (validate_value v) refl h)
  where
    named :
        (o : Option SerializeError)
        → validate_value v ≡ o
        → is_json_safe v ≡ false
        → (e : SerializeError) × (validate_value v ≡ some e)
          × (serialize_and_validate_message dumps v ≡ Serialized.raised e)
    named none q h = let a = agrees v in absurd (ground arith)
    named (some e) q h = (e, q, ground arith)
