-- ===== src/Config/Sensor/Sht35.antt =====
-- devices/sht35/validation.py
use pico_dualcore.Prelude.{ℕ, Bool, false, String, List, [], ◌∷◌}
use pico_dualcore.Value.{Value, str_value}
use pico_dualcore.Config.Check.{
  Check, ◌>>=◌, ◌>>◌, Passed, require, get, get_or, as_object, require_allowed, text_member,
}
use pico_dualcore.Config.Sensor.{check_bus, check_freq, check_candidates, check_offsets}

abbrev pub allowed_config_keys : List String
allowed_config_keys =
    "i2c_bus" ∷ "i2c_sda_pin" ∷ "i2c_scl_pin" ∷ "i2c_freq_hz" ∷ "i2c_address_candidates"
    ∷ "repeatability" ∷ "offsets" ∷ []

abbrev pub default_i2c_address_candidates : List ℕ
default_i2c_address_candidates = 68 ∷ 69 ∷ []

abbrev offset_bounds : List (String × ℕ)
offset_bounds = ("temperature_c", 100) ∷ ("humidity_percent", 100) ∷ []

is_repeatability : Value → Bool
is_repeatability (str_value s) = text_member s ("high" ∷ "medium" ∷ "low" ∷ [])
is_repeatability _ = false

unfoldable pub validate_sht35 : Value → Check Passed
unfolding is_repeatability
validate_sht35 value = do
  config ← as_object value
  require_allowed allowed_config_keys config
  check_bus config
  check_freq 1000000 config
  check_candidates default_i2c_address_candidates (get "i2c_address_candidates" config)
  require (is_repeatability (get_or (str_value "high") "repeatability" config))
  check_offsets offset_bounds (get "offsets" config)
