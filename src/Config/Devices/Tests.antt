-- ===== src/Config/Devices/Tests.antt =====
-- Concrete device lists.
use pico_dualcore.Prelude.{String, List, [], ◌∷◌, ◌≡◌, refl, All}
use pico_dualcore.Value.{
  Value, Items, nil, cons, Fields, end, field, int_value, str_value, list_value, dict_value,
}
use pico_dualcore.Config.Check.{
  accepted, text_member, lookup, only_allowed, has_key, get_or, get, item, required,
  require_allowed,
}
use pico_dualcore.Config.Pins.{
  validate_user_gpio_pin, validate_rp2_i2c_pins, effective_rp2_i2c_pins,
}
use pico_dualcore.Config.Sensor.{
  each_candidate, check_candidates, check_offsets, check_bus, check_freq,
}
use pico_dualcore.Config.Sensor.Yl69Fc28.{validate_yl69_fc28}
use pico_dualcore.Config.Sensor.Ds18b20.{validate_ds18b20}
use pico_dualcore.Config.Sensor.Bme280.{validate_bme280}
use pico_dualcore.Config.Definition.{
  registered, registry_entry, validate_by_type, validate_device_config, validate_device_definition,
  i2c_bus_identity,
}
use pico_dualcore.Config.Devices.{
  validate_devices, onewire_pins, each_device, each_bus, each_soil, each_driven, each_ltr390,
  entries_on, distinct_addresses, check_candidate_sensors, check_list,
}
use pico_dualcore.Config.Devices.Pins.{soil_pins, i2c_pins, Apart, Outside, validate_devices-Pins}

infixr 40 ◌:=◌
abbrev ◌:=◌ : String → Value → Fields → Fields
(k := v) fs = field (str_value k) v fs

abbrev device : String → String → Fields → Fields
device id device_type config =
    ("id" := str_value id)
      (("device_type" := str_value device_type) (("config" := dict_value config) end))

-- Two digital pins, 15 and 14, and the 1-Wire pin 16.
abbrev devices : List Fields
devices =
    device "soil" "yl69_fc28" (
      ("adc_pin" := int_value 26) (
        ("digital_pin" := int_value 15)
          (("dry_raw" := int_value 50000) (("wet_raw" := int_value 20000) end))))
    ∷ device "beam" "yl69_fc28" (
        ("adc_pin" := int_value 27) (
          ("digital_pin" := int_value 14)
            (("dry_raw" := int_value 50000) (("wet_raw" := int_value 20000) end))))
    ∷ device "heat" "ds18b20"
        (("pin" := int_value 16) (("rom" := str_value "28ff641e8216038c") end))
    ∷ device "air" "bme280"
        (("i2c_bus" := int_value 0) (("sea_level_pressure_pa" := int_value 101325) end))
    ∷ []

abbrev items_of : List Fields → Items
items_of [] = nil
items_of (d ∷ ds) = cons (dict_value d) (items_of ds)

devices_accepted : validate_devices (list_value (items_of devices)) ≡ accepted devices
unfolding validate_devices each_device each_bus onewire_pins each_soil each_driven each_ltr390
    entries_on distinct_addresses check_candidate_sensors check_list check_candidates check_bus
    check_freq check_offsets each_candidate validate_rp2_i2c_pins effective_rp2_i2c_pins text_member
    lookup only_allowed has_key get_or get item required require_allowed validate_user_gpio_pin
    validate_yl69_fc28 validate_ds18b20 validate_bme280 registered registry_entry validate_by_type
    validate_device_config validate_device_definition i2c_bus_identity
devices_accepted = refl

validate_devices-Pins_example :
    Apart (soil_pins devices)
    × All (Outside (onewire_pins devices)) (soil_pins devices)
    × All (Outside (onewire_pins devices)) (i2c_pins devices)
    × All (Outside (soil_pins devices)) (i2c_pins devices)
validate_devices-Pins_example =
    validate_devices-Pins (list_value (items_of devices)) devices_accepted
