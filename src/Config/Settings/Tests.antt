-- ===== src/Config/Settings/Tests.antt =====
-- A configuration that is accepted.
use text.Mathlib.Text.{◌==◌ as str_eq}
use pico_dualcore.Prelude.{String, List, ◌≡◌, refl, if◌then◌else◌}
use pico_dualcore.Value.{
  Value, nil, cons, Fields, end, field, int_value, str_value, list_value, dict_value,
}
use pico_dualcore.Config.Check.{
  accepted, foreign, text_member, lookup, only_allowed, has_key, get_or, get, item, required,
  require_allowed,
}
use pico_dualcore.Config.Settings.{
  validate_config, mqtt_topic_keys, check_keys, check_texts, check_limits, check_intervals,
  check_lists, all_present, each_key, is_topic, each_distinct, at_most, at_least,
  require_ticks_safe_interval, validate_delays,
}
use pico_dualcore.Config.Check.Laws.{Distinct}
use pico_dualcore.Config.Settings.Limits.{Limits, validate_config-Limits}
use pico_dualcore.Config.Settings.Topics.{Topics, validate_config-Topics}
use pico_dualcore.Config.Settings.Foreign.{validate_config-foreign}
use pico_dualcore.Config.Unknown.{unknown_config_paths}
use pico_dualcore.Config.Devices.{
  validate_devices, each_device, each_bus, onewire_pins, each_soil, each_driven, each_ltr390,
  entries_on, distinct_addresses, check_candidate_sensors, check_list,
}
use pico_dualcore.Config.Definition.{
  registered, registry_entry, allowed_keys_of_type, validate_by_type, validate_device_config,
  validate_device_definition, i2c_bus_identity,
}
use pico_dualcore.Config.Sensor.Yl69Fc28.{validate_yl69_fc28}
use pico_dualcore.Config.Pins.{validate_user_gpio_pin}

infixr 40 ◌:=◌
abbrev ◌:=◌ : String → Value → Fields → Fields
(k := v) fs = field (str_value k) v fs

abbrev soil_sensor : Value
soil_sensor = dict_value (
    ("id" := str_value "soil") (
      ("device_type" := str_value "yl69_fc28") (
        ("config"
            := dict_value (
                ("adc_pin" := int_value 26) (
                  ("digital_pin" := int_value 15)
                    (("dry_raw" := int_value 50000) (("wet_raw" := int_value 20000) end)))))
          end)))

abbrev pub example : Fields
example = ("config_schema_version" := int_value 10) (
    ("source" := str_value "pico") (
      ("read_loop_sec" := int_value 60) (
        ("device_initialization_attempts" := int_value 3) (
          ("device_initialization_retry_delay_ms" := int_value 500) (
            ("device_read_failure_threshold" := int_value 3) (
              ("devices" := list_value (cons soil_sensor nil)) (
                ("mqtt_broker_ip_address" := str_value "10.0.0.2") (
                  ("mqtt_keepalive_sec" := int_value 60) (
                    ("mqtt_command_poll_ms" := int_value 100) (
                      ("mqtt_outbound_publish_delay_ms" := int_value 50) (
                        ("mqtt_broker_response_timeout_sec" := int_value 5) (
                          ("datetime_sync_interval_min" := int_value 60) (
                            ("network_snapshot_interval_sec" := int_value 60) (
                              ("network_probe_timeout_sec" := int_value 10) (
                                ("mqtt_topic_telemetry" := str_value "t/a") (
                                  ("mqtt_topic_log" := str_value "t/b") (
                                    ("mqtt_topic_command" := str_value "t/c") (
                                      ("mqtt_topic_command_response" := str_value "t/d") (
                                        ("mqtt_topic_info_request" := str_value "t/e") (
                                          ("mqtt_topic_info_response" := str_value "t/f") (
                                            ("mqtt_topic_network_probe" := str_value "t/g") (
                                              ("mqtt_topic_health" := str_value "t/h") (
                                                ("health_interval_sec" := int_value 60) (
                                                  ("wifi_reconnect_delays_sec"
                                                      := list_value (cons (int_value 1) nil))
                                                    (("mqtt_reconnect_delays_sec"
                                                        := list_value (cons (int_value 1) nil))
                                                      (("outbound_queue_max_messages"
                                                          := int_value 64)
                                                        end))))))))))))))))))))))))))

pub example_accepted : validate_config (dict_value example) ≡ accepted example
unfolding validate_config check_keys check_texts check_limits check_intervals check_lists
    unknown_config_paths all_present each_key is_topic each_distinct at_most at_least
    require_ticks_safe_interval validate_delays text_member lookup only_allowed validate_devices
    each_device each_bus onewire_pins each_soil each_driven each_ltr390 entries_on
    distinct_addresses check_candidate_sensors check_list registered registry_entry
    allowed_keys_of_type validate_by_type validate_device_config validate_device_definition
    i2c_bus_identity validate_yl69_fc28 validate_user_gpio_pin has_key get_or get item required
    require_allowed
example_accepted = refl

-- The object with another value for the key.
abbrev with_value : String → Value → Fields → Fields
with_value key w end = end
with_value key w (field (str_value k) v fs) =
    field (str_value k) (if str_eq k key then w else v) (with_value key w fs)
with_value key w (field k v fs) = field k v (with_value key w fs)

abbrev pub slower : Fields
slower = with_value "read_loop_sec" (int_value 120) example

pub slower_accepted : validate_config (dict_value slower) ≡ accepted slower
unfolding validate_config check_keys check_texts check_limits check_intervals check_lists
    unknown_config_paths all_present each_key is_topic each_distinct at_most at_least
    require_ticks_safe_interval validate_delays text_member lookup only_allowed validate_devices
    each_device each_bus onewire_pins each_soil each_driven each_ltr390 entries_on
    distinct_addresses check_candidate_sensors check_list registered registry_entry
    allowed_keys_of_type validate_by_type validate_device_config validate_device_definition
    i2c_bus_identity validate_yl69_fc28 validate_user_gpio_pin has_key get_or get item required
    require_allowed
slower_accepted = refl

validate_config-Limits_example : Limits example
validate_config-Limits_example = validate_config-Limits (dict_value example) example_accepted

validate_config-Topics_example :
    (ts : List String) × Topics example mqtt_topic_keys ts × Distinct ts
validate_config-Topics_example = validate_config-Topics (dict_value example) example_accepted

-- A device whose type is a list.
abbrev listed : Fields
listed =
    ("id" := str_value "soil")
      (("device_type" := list_value nil) (("config" := dict_value end) end))

validate_config-foreign_example :
    validate_config (dict_value (("devices" := list_value (cons (dict_value listed) nil)) end))
    ≡ foreign
unfolding lookup
validate_config-foreign_example =
    validate_config-foreign (("devices" := list_value (cons (dict_value listed) nil)) end) listed
      end nil (list_value nil) refl refl refl tt
