-- ===== src/Message/Tests.antt =====
-- The theorems of message serialization at a nested message.
use pico_dualcore.Prelude.{true, none, [], ◌∷◌, ◌≡◌, ◌↔◌}
use pico_dualcore.Value.{Value, nan_float, str_value, list_value, dict_value, nil, cons, end, field}
use pico_dualcore.Message.{is_json_safe, validate_value, Dumped, bytes}
use pico_dualcore.Message.Safe.{validate_value_iff}

abbrev reading : Value
reading = dict_value (field (str_value "t") (list_value (cons nan_float nil)) end)

validate_value_iff_example : (validate_value reading ≡ none) ↔ (is_json_safe reading ≡ true)
validate_value_iff_example = validate_value_iff reading

abbrev two_bytes : Value → Dumped
two_bytes v = bytes (123 ∷ 125 ∷ [])
