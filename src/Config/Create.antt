-- ===== src/Config/Create.antt =====
-- create_device of device_factory.py: the driver of a device, and what Core 1's factories are asked
-- for it.
pub mod Laws
mod Tests
use Prim.Native.String.{String}
use text.Mathlib.Text.{◌==◌ as str_eq}
use pico_dualcore.Prelude.{Bool, true, false, Option, none, some, if◌then◌else◌}
use pico_dualcore.Value.{Value, Fields, int_value, str_value, dict_value}
use pico_dualcore.Config.Check.{Check, accepted, foreign, ◌>>=◌, get, get_or, item}
use pico_dualcore.Config.Sensor.{default_i2c_freq_hz}
use pico_dualcore.Config.Definition.{
  DeviceType, bme280, ltr390, ds18b20, sht35, yl69_fc28, registered, BusIdentity,
}

-- Which of the factories the caller gives.
pub record Factories : Type 0 where
  pub i2c_bus_factory : Bool
  pub onewire_bus_factory : Bool
  pub adc_bus_factory : Bool

-- A driver with the arguments of the one call to a factory that it needs.
pub data Driver : Type 0 where
  i2c_driver : DeviceType → BusIdentity → Driver
  onewire_driver : Value → Driver
  adc_driver : Value → Driver

-- device_definition["config"], from which keys are read next.
config_object : Value → Check Fields
config_object (dict_value fs) = accepted fs
config_object v = foreign

abbrev on_bus : DeviceType → Fields → Check Driver
on_bus t device = do
  value ← item "config" device
  cfg ← config_object value
  bus ← item "i2c_bus" cfg
  accepted (
      i2c_driver t (record {
        bus = bus;
        sda = get "i2c_sda_pin" cfg;
        scl = get "i2c_scl_pin" cfg;
        freq = get_or (int_value default_i2c_freq_hz) "i2c_freq_hz" cfg;
      }))

abbrev on_pin : String → (Value → Driver) → Fields → Check Driver
on_pin key driver device = do
  value ← item "config" device
  cfg ← config_object value
  pin ← item key cfg
  accepted (driver pin)

-- Each branch raises a ValueError first if its factory is not given.
abbrev given : {A : Type 0} → Bool → Check A → Check A
given true m = m
given false m = foreign

create_by_type : Factories → Fields → Option DeviceType → Check Driver
unfolding config_object
create_by_type factories device none = foreign
create_by_type factories device (some bme280) =
    given factories.i2c_bus_factory (on_bus bme280 device)
create_by_type factories device (some ltr390) =
    given factories.i2c_bus_factory (on_bus ltr390 device)
create_by_type factories device (some sht35) = given factories.i2c_bus_factory (on_bus sht35 device)
create_by_type factories device (some ds18b20) =
    given factories.onewire_bus_factory (on_pin "pin" onewire_driver device)
create_by_type factories device (some yl69_fc28) =
    given factories.adc_bus_factory (on_pin "adc_pin" adc_driver device)

-- The comparisons of the type with the five names.
type_of_value : Value → Option DeviceType
type_of_value (str_value s) = registered s
type_of_value v = none

pub create_device : Factories → Fields → Check Driver
unfolding type_of_value create_by_type
create_device factories device = do
  device_type ← item "device_type" device
  create_by_type factories device (type_of_value device_type)
