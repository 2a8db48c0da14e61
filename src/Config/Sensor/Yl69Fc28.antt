-- ===== src/Config/Sensor/Yl69Fc28.antt =====
-- devices/yl69_fc28/validation.py
use pico_dualcore.Prelude.{
  ◌%◌, Bool, true, false, not, ◌&&◌, String, Option, none, some, List, [], ◌∷◌, if◌then◌else◌, ◌==◌,
  ◌≡◌,
}
use pico_dualcore.Value.{Value, Fields, bool_value, int_value, dict_value}
use pico_dualcore.Config.Check.{
  Check, accepted, ◌>>=◌, ◌>>◌, Passed, pass, require, get_or, has_key, lookup, item, required,
  as_object, require_allowed, int_between, int_among,
}
use pico_dualcore.Config.Check.Laws.{split, required_lem}
use pico_dualcore.Config.Pins.{validate_user_gpio_pin}

abbrev pub allowed_config_keys : List String
allowed_config_keys =
    "adc_pin" ∷ "digital_pin" ∷ "power_pin" ∷ "power_active_low" ∷ "settle_ms" ∷ "sample_count"
    ∷ "sample_delay_ms" ∷ "dry_raw" ∷ "wet_raw" ∷ []

abbrev same_number : Value → Value → Bool
same_number (int_value n) (int_value m) = n == m
same_number _ _ = false

-- `if key in config: validate_user_gpio_pin(key, config[key])`
check_optional_pin : Option Value → Check Passed
check_optional_pin none = pass
check_optional_pin (some v) = validate_user_gpio_pin v

reject_pin_overlap : String → String → Fields → Check Passed
reject_pin_overlap first_key second_key config = do
  first ← item first_key config
  second ← item second_key config
  require (not (same_number first second))

check_pins : Fields → Check Passed
unfolding check_optional_pin reject_pin_overlap
check_pins config = do
  adc_pin ← required "adc_pin" config
  require (int_among (26 ∷ 27 ∷ 28 ∷ []) adc_pin)
  check_optional_pin (lookup "digital_pin" config)
  check_optional_pin (lookup "power_pin" config)
  if has_key "digital_pin" config then reject_pin_overlap "adc_pin" "digital_pin" config else pass
  if has_key "power_pin" config then reject_pin_overlap "adc_pin" "power_pin" config else pass
  if has_key "power_pin" config && has_key "digital_pin" config
      then reject_pin_overlap "digital_pin" "power_pin" config
      else pass

is_bool : Value → Bool
is_bool (bool_value b) = true
is_bool _ = false

abbrev is_odd : Value → Bool
is_odd (int_value n) = not (n % 2 == 0)
is_odd _ = false

check_sampling : Fields → Check Passed
unfolding is_bool
check_sampling config = do
  require (is_bool (get_or (bool_value true) "power_active_low" config))
  require (int_between 0 2000 (get_or (int_value 200) "settle_ms" config))
  let sample_count = get_or (int_value 9) "sample_count" config
  require (int_between 1 101 sample_count && is_odd sample_count)
  require (int_between 0 50 (get_or (int_value 2) "sample_delay_ms" config))

validate_raw_calibration : String → Fields → Check Value
validate_raw_calibration key config = do
  value ← required key config
  require (int_between 0 65535 value)
  Check.accepted value

check_calibration : Fields → Check Passed
unfolding validate_raw_calibration
check_calibration config = do
  dry_raw ← validate_raw_calibration "dry_raw" config
  wet_raw ← validate_raw_calibration "wet_raw" config
  require (not (same_number dry_raw wet_raw))

unfoldable pub validate_yl69_fc28 : Value → Check Passed
unfolding check_pins check_sampling check_calibration
validate_yl69_fc28 value = do
  config ← as_object value
  require_allowed allowed_config_keys config
  check_pins config
  check_sampling config
  check_calibration config

-- What is accepted has no key but the allowed ones, and has its ADC pin.
pub validate_yl69_fc28_lem :
    (config : Fields) {u : Passed}
    → validate_yl69_fc28 (dict_value config) ≡ accepted u
    → (require_allowed allowed_config_keys config ≡ accepted tt)
      × ((v : Value) × (lookup "adc_pin" config ≡ some v))
unfolding validate_yl69_fc28
validate_yl69_fc28_lem config h =
    let (u, e, h₁) = split (require_allowed allowed_config_keys config) _ h in
    let (u₁, e₁, h₂) = split (check_pins config) _ h₁ in
    let (v, e₂, h₃) = split (required "adc_pin" config) _ e₁ in
    (e, (v, required_lem "adc_pin" config e₂))
