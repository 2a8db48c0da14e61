-- ===== src/Config/Sensor/Ltr390.antt =====
-- devices/ltr390/validation.py
use pico_dualcore.Prelude.{
  ℕ, ◌*◌, Bool, false, ◌&&◌, String, List, [], ◌∷◌, if◌then◌else◌, leb, ◌==◌,
}
use pico_dualcore.Value.{Value, Fields, int_value}
use pico_dualcore.Config.Check.{
  Check, ◌>>=◌, ◌>>◌, Passed, require, get, get_or, as_object, require_allowed, int_among,
  is_finite_number, number_between,
}
use pico_dualcore.Config.Sensor.{check_bus, check_freq, check_offsets}

abbrev pub allowed_config_keys : List String
allowed_config_keys =
    "i2c_bus" ∷ "i2c_sda_pin" ∷ "i2c_scl_pin" ∷ "i2c_freq_hz" ∷ "gain" ∷ "resolution_bits"
    ∷ "measurement_rate_ms" ∷ "window_factor" ∷ "offsets" ∷ []

abbrev offset_bounds : List (String × ℕ)
offset_bounds = ("lux", 50000) ∷ ("uv_index", 12) ∷ []

-- _CONVERSION_TIME_MS, doubled, since 13 bits take 12.5 ms.
abbrev conversion_half_ms : ℕ → ℕ
conversion_half_ms bits =
    if bits == 20
    then 800
    else if bits == 19
    then 400
    else if bits == 18
    then 200
    else if bits == 17
    then 100
    else if bits == 16
    then 50
    else 25

abbrev in_time : Value → Value → Bool
in_time (int_value rate) (int_value bits) = leb (conversion_half_ms bits) (rate * 2)
in_time _ _ = false

check_timing : Fields → Check Passed
check_timing config = do
  let resolution = get_or (int_value 18) "resolution_bits" config
  let rate = get_or (int_value 200) "measurement_rate_ms" config
  require (int_among (1 ∷ 3 ∷ 6 ∷ 9 ∷ 18 ∷ []) (get_or (int_value 3) "gain" config))
  require (int_among (13 ∷ 16 ∷ 17 ∷ 18 ∷ 19 ∷ 20 ∷ []) resolution)
  require (int_among (25 ∷ 50 ∷ 100 ∷ 200 ∷ 500 ∷ 1000 ∷ 2000 ∷ []) rate)
  require (in_time rate resolution)

check_window : Fields → Check Passed
check_window config = do
  let window_factor = get_or (int_value 1) "window_factor" config
  require (is_finite_number window_factor && number_between 1 100 window_factor)

unfoldable pub validate_ltr390 : Value → Check Passed
unfolding check_timing check_window
validate_ltr390 value = do
  config ← as_object value
  require_allowed allowed_config_keys config
  check_bus config
  check_freq 400000 config
  check_timing config
  check_window config
  check_offsets offset_bounds (get "offsets" config)
