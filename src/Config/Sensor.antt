-- ===== src/Config/Sensor.antt =====
-- What the validators of the device types share.
use text.Mathlib.Text.{◌==◌ as str_eq}
use pico_dualcore.Prelude.{
  ℕ, Bool, true, false, not, String, Option, none, some, List, [], ◌∷◌, if◌then◌else◌,
}
use pico_dualcore.Value.{
  Value, Items, nil, cons, Fields, end, field, none_value, int_value, str_value, list_value,
  dict_value,
}
use pico_dualcore.Config.Check.{
  Check, accepted, foreign, ◌>>=◌, ◌>>◌, Passed, pass, invalid, require, member, get, get_or,
  required, require_allowed, int_between, int_among, is_finite_number, magnitude_within,
}
use pico_dualcore.Config.Pins.{validate_rp2_i2c_pins}
pub mod Bme280
pub mod Ltr390
pub mod Ds18b20
pub mod Sht35
pub mod Yl69Fc28

abbrev number : Value → ℕ
number (int_value n) = n
number _ = 0

-- i2c_bus, i2c_sda_pin and i2c_scl_pin; the result is the bus.
unfoldable pub check_bus : Fields → Check ℕ
check_bus config = do
  bus ← required "i2c_bus" config
  require (int_between 0 1 bus)
  validate_rp2_i2c_pins (number bus) (get "i2c_sda_pin" config) (get "i2c_scl_pin" config)
  accepted (number bus)

abbrev pub default_i2c_freq_hz : ℕ
default_i2c_freq_hz = 400000

unfoldable pub check_freq : ℕ → Fields → Check Passed
check_freq highest config =
    require
      (int_between 100000 highest (get_or (int_value default_i2c_freq_hz) "i2c_freq_hz" config))

-- Each entry is a valid address that does not stand before it.
unfoldable pub each_candidate : List ℕ → List ℕ → Items → Check Passed
each_candidate valid seen nil = pass
each_candidate valid seen (cons v vs) = do
  require (int_among valid v)
  require (not (member (number v) seen))
  each_candidate valid (number v ∷ seen) vs

unfoldable pub check_candidates : List ℕ → Value → Check Passed
unfolding each_candidate
check_candidates valid none_value = pass
check_candidates valid (list_value (cons v vs)) = each_candidate valid [] (cons v vs)
check_candidates valid _ = invalid

bound_of : String → List (String × ℕ) → Option ℕ
bound_of k [] = none
bound_of k ((j, n) ∷ rest) = if str_eq j k then some n else bound_of k rest

abbrev within_bound : Option ℕ → Value → Check Passed
within_bound none v = foreign
within_bound (some n) v = require (magnitude_within n v)

each_offset : List (String × ℕ) → Fields → Check Passed
unfolding bound_of
each_offset bounds end = pass
each_offset bounds (field (str_value k) v fs) = do
  require (is_finite_number v)
  within_bound (bound_of k bounds) v
  each_offset bounds fs
each_offset bounds (field key v fs) = foreign

keys_of : List (String × ℕ) → List String
keys_of [] = []
keys_of ((k, n) ∷ rest) = k ∷ keys_of rest

-- config.get("offsets"), by the bounds of the sub-keys.
unfoldable pub check_offsets : List (String × ℕ) → Value → Check Passed
unfolding each_offset keys_of
check_offsets bounds none_value = pass
check_offsets bounds (dict_value fs) = do require_allowed (keys_of bounds) fs; each_offset bounds fs
check_offsets bounds _ = invalid
