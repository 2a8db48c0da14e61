-- ===== src/Config/Create/Tests.antt =====
-- A driver that is made.
use pico_dualcore.Prelude.{String, ◌≡◌, refl}
use pico_dualcore.Value.{Value, Fields, end, field, int_value, str_value, dict_value}
use pico_dualcore.Config.Check.{
  accepted, text_member, lookup, only_allowed, has_key, get_or, get, item, required,
  require_allowed,
}
use pico_dualcore.Config.Pins.{validate_rp2_i2c_pins}
use pico_dualcore.Config.Sensor.{check_offsets, check_candidates, check_bus, check_freq}
use pico_dualcore.Config.Sensor.Sht35.{validate_sht35}
use pico_dualcore.Config.Definition.{
  registered, registry_entry, validate_by_type, validate_device_config, validate_device_definition,
}
use pico_dualcore.Config.Create.Laws.{Driven, create_device-validated}

infixr 40 ◌:=◌
abbrev ◌:=◌ : String → Value → Fields → Fields
(k := v) fs = field (str_value k) v fs

abbrev device : Fields
device = ("id" := str_value "air") (
    ("device_type" := str_value "sht35")
      (("config" := dict_value (("i2c_bus" := int_value 0) end)) end))

device_accepted : validate_device_definition device ≡ accepted tt
unfolding validate_device_definition validate_device_config validate_by_type registered
    registry_entry text_member lookup only_allowed has_key get_or get item required require_allowed
    check_offsets check_candidates check_bus check_freq validate_rp2_i2c_pins validate_sht35
device_accepted = refl

create_device-validated_example : Driven device
create_device-validated_example = create_device-validated device device_accepted
