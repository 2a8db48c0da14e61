-- ===== src/Config/Definition.antt =====
-- device_factory.py: the registry of the device types, and one device definition.
use Prim.Native.String.{String, len}
use text.Mathlib.Text.{◌==◌ as str_eq}
use pico_dualcore.Prelude.{
  ℕ, Bool, true, false, not, Option, none, some, List, [], ◌∷◌, if◌then◌else◌, leb,
}
use pico_dualcore.Value.{Value, Fields, none_value, int_value, str_value, list_value, dict_value}
use pico_dualcore.Storage.{unsupported_device_type}
use pico_dualcore.Config.Check.{
  Check, accepted, refused, foreign, ◌>>=◌, ◌>>◌, Passed, pass, require, get, get_or, lookup,
  required, require_allowed, is_empty,
}
use pico_dualcore.Config.Sensor.{default_i2c_freq_hz}
use pico_dualcore.Config.Sensor.Bme280.{validate_bme280}
use pico_dualcore.Config.Sensor.Ltr390.{validate_ltr390}
use pico_dualcore.Config.Sensor.Ds18b20.{validate_ds18b20}
use pico_dualcore.Config.Sensor.Sht35.{validate_sht35}
use pico_dualcore.Config.Sensor.Yl69Fc28.{validate_yl69_fc28}
use pico_dualcore.Config.Sensor.Bme280
use pico_dualcore.Config.Sensor.Ltr390
use pico_dualcore.Config.Sensor.Ds18b20
use pico_dualcore.Config.Sensor.Sht35
use pico_dualcore.Config.Sensor.Yl69Fc28

-- _DEVICE_REGISTRY: the validator and the allowed keys of a type.
pub data DeviceType : Type 0 where
  bme280 ltr390 ds18b20 sht35 yl69_fc28 : DeviceType

unfoldable pub registered : String → Option DeviceType
registered s =
    if str_eq s "bme280"
    then some bme280
    else if str_eq s "ltr390"
    then some ltr390
    else if str_eq s "ds18b20"
    then some ds18b20
    else if str_eq s "sht35"
    then some sht35
    else if str_eq s "yl69_fc28"
    then some yl69_fc28
    else none

-- _DEVICE_REGISTRY.get(device_type): a list or a dictionary cannot be hashed, which is a TypeError.
unfoldable pub registry_entry : Value → Check (Option DeviceType)
unfolding registered
registry_entry (str_value s) = accepted (registered s)
registry_entry (list_value xs) = foreign
registry_entry (dict_value fs) = foreign
registry_entry v = accepted none

abbrev pub type_keys : DeviceType → List String
type_keys bme280 = Bme280.allowed_config_keys
type_keys ltr390 = Ltr390.allowed_config_keys
type_keys ds18b20 = Ds18b20.allowed_config_keys
type_keys sht35 = Sht35.allowed_config_keys
type_keys yl69_fc28 = Yl69Fc28.allowed_config_keys

abbrev keys_of_entry : Option DeviceType → Option (List String)
keys_of_entry none = none
keys_of_entry (some t) = some (type_keys t)

unfoldable pub allowed_keys_of_type : Value → Check (Option (List String))
unfolding registry_entry
allowed_keys_of_type device_type = do
  entry ← registry_entry device_type
  accepted (keys_of_entry entry)

unfoldable pub validate_by_type : Option DeviceType → Value → Check Passed
validate_by_type none config = refused unsupported_device_type []
validate_by_type (some bme280) config = validate_bme280 config
validate_by_type (some ltr390) config = validate_ltr390 config
validate_by_type (some ds18b20) config = validate_ds18b20 config
validate_by_type (some sht35) config = validate_sht35 config
validate_by_type (some yl69_fc28) config = validate_yl69_fc28 config

unfoldable pub validate_device_config : Value → Value → Check Passed
unfolding registry_entry validate_by_type
validate_device_config device_type config = do
  entry ← registry_entry device_type
  validate_by_type entry config

abbrev pub device_definition_keys : List String
device_definition_keys = "id" ∷ "device_type" ∷ "config" ∷ "name" ∷ []

abbrev pub non_empty_string : Value → Bool
non_empty_string (str_value s) = not (is_empty s)
non_empty_string v = false

-- len(value.encode("utf-8")) <= bound, for a string.
abbrev pub bytes_within : ℕ → Value → Bool
bytes_within bound (str_value s) = leb (len s) bound
bytes_within bound v = false

pub check_name : Value → Check Passed
check_name none_value = pass
check_name v = require (bytes_within 64 v)

abbrev pub is_object : Value → Bool
is_object (dict_value fs) = true
is_object v = false

unfoldable pub validate_device_definition : Fields → Check Passed
unfolding check_name validate_device_config
validate_device_definition device = do
  device_id ← required "id" device
  device_type ← required "device_type" device
  config ← required "config" device
  require_allowed device_definition_keys device
  require (non_empty_string device_id)
  require (bytes_within 64 device_id)
  require (non_empty_string device_type)
  require (is_object config)
  check_name (get "name" device)
  validate_device_config device_type config

-- The bus, the pins as configured, and the frequency with its default, which is the same for each
-- of the types that have a bus.
pub record BusIdentity : Type 0 where
  pub bus : Value
  pub sda : Value
  pub scl : Value
  pub freq : Value

-- The first argument is config["i2c_bus"], or `none` if it is not there.
abbrev identity_on : Option Value → Fields → Option BusIdentity
identity_on none config = none
identity_on (some bus) config = some (record {
  bus = bus;
  sda = get "i2c_sda_pin" config;
  scl = get "i2c_scl_pin" config;
  freq = get_or (int_value default_i2c_freq_hz) "i2c_freq_hz" config;
})

bus_identity_of : Value → Option BusIdentity
bus_identity_of (dict_value config) = identity_on (lookup "i2c_bus" config) config
bus_identity_of v = none

unfoldable pub i2c_bus_identity : Fields → Option BusIdentity
unfolding bus_identity_of
i2c_bus_identity device = bus_identity_of (get "config" device)
