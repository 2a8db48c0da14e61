-- ===== src/Config/Sensor/Bme280.antt =====
-- devices/bme280/validation.py
use pico_dualcore.Prelude.{ℕ, Bool, not, ◌&&◌, ◌||◌, String, List, [], ◌∷◌}
use pico_dualcore.Value.{Value, Fields, int_value}
use pico_dualcore.Config.Check.{
  Check, ◌>>=◌, ◌>>◌, Passed, require, get, get_or, required, as_object, require_allowed,
  int_between, is_zero, is_finite_number, number_between,
}
use pico_dualcore.Config.Sensor.{check_bus, check_freq, check_candidates, check_offsets}

abbrev pub allowed_config_keys : List String
allowed_config_keys =
    "i2c_bus" ∷ "i2c_sda_pin" ∷ "i2c_scl_pin" ∷ "i2c_freq_hz" ∷ "i2c_address_candidates"
    ∷ "temperature_oversampling" ∷ "pressure_oversampling" ∷ "humidity_oversampling" ∷ "iir_filter"
    ∷ "sea_level_pressure_pa" ∷ "offsets" ∷ []

abbrev pub default_i2c_address_candidates : List ℕ
default_i2c_address_candidates = 118 ∷ 119 ∷ []

abbrev offset_bounds : List (String × ℕ)
offset_bounds =
    ("temperature_c", 100) ∷ ("humidity_percent", 100) ∷ ("pressure_pascal", 200000) ∷ []

-- The cross-field rules of the oversampling settings.
abbrev channels_consistent : Value → Value → Value → Bool
channels_consistent t p h =
    not (is_zero t && (not (is_zero p) || not (is_zero h)))
    && not (is_zero t && (is_zero p && is_zero h))

check_oversampling : Fields → Check Passed
check_oversampling config = do
  let temperature = get_or (int_value 1) "temperature_oversampling" config
  let pressure = get_or (int_value 1) "pressure_oversampling" config
  let humidity = get_or (int_value 1) "humidity_oversampling" config
  require (int_between 0 5 temperature)
  require (int_between 0 5 pressure)
  require (int_between 0 5 humidity)
  require (int_between 0 4 (get_or (int_value 0) "iir_filter" config))
  require (channels_consistent temperature pressure humidity)

check_sea_level : Fields → Check Passed
check_sea_level config = do
  sea_level ← required "sea_level_pressure_pa" config
  require (is_finite_number sea_level && number_between 30000 115000 sea_level)

unfoldable pub validate_bme280 : Value → Check Passed
unfolding check_oversampling check_sea_level
validate_bme280 value = do
  config ← as_object value
  require_allowed allowed_config_keys config
  check_bus config
  check_freq 1000000 config
  check_candidates default_i2c_address_candidates (get "i2c_address_candidates" config)
  check_oversampling config
  check_sea_level config
  check_offsets offset_bounds (get "offsets" config)
