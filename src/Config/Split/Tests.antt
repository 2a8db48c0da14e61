-- ===== src/Config/Split/Tests.antt =====
-- The configuration of Settings/Tests is split.
use pico_dualcore.Prelude.{◌≡◌, All}
use pico_dualcore.Config.Settings.{required_keys}
use pico_dualcore.Value.{Fields, dict_value}
use pico_dualcore.Config.Check.{accepted}
use pico_dualcore.Config.Settings.Tests.{example, example_accepted}
use pico_dualcore.Config.Split.{
  Handed, split_config, Agree, core0_keys, core1_keys, validate_config-split_config,
}

validate_config-split_config_example :
    (core0 core1 : Fields) × (split_config example ≡ accepted (core0, core1))
    × Agree core0 core0_keys example
    × Agree core1 core1_keys example
    × All (Handed example core0 core1) required_keys
validate_config-split_config_example =
    validate_config-split_config (dict_value example) example_accepted
