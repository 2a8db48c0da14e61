-- ===== src/Config/Settings/Foreign.antt =====
-- validate_config: what is raised when a device's type cannot be hashed.
use pico_dualcore.Prelude.{some, ◌≡◌}
use pico_dualcore.Value.{Value, Items, cons, Fields, list_value, dict_value}
use pico_dualcore.Config.Check.{foreign, lookup}
use pico_dualcore.Config.Check.Laws.{get_lem}
use pico_dualcore.Config.Definition.{registry_entry, allowed_keys_of_type}
use pico_dualcore.Config.Unknown.{unknown_config_paths}
use pico_dualcore.Config.Settings.{validate_config, check_keys}

-- A list or a dictionary, as the parser of JSON makes them.
abbrev pub Unhashable : Value → Type 0
Unhashable (list_value xs) = Unit
Unhashable (dict_value fs) = Unit
Unhashable v = ⊥

-- A configuration whose first device names such a type, and has an object for its config, is not
-- refused with a ConfigError: another exception is raised.
pub validate_config-foreign :
    (config device inner : Fields) (others : Items) (device_type : Value)
    → lookup "devices" config ≡ some (list_value (cons (dict_value device) others))
    → lookup "config" device ≡ some (dict_value inner)
    → lookup "device_type" device ≡ some device_type
    → Unhashable device_type
    → validate_config (dict_value config) ≡ foreign
unfolding validate_config check_keys unknown_config_paths allowed_keys_of_type registry_entry
validate_config-foreign config device inner others (list_value xs) h k t u =
    rw (get_lem "devices" config h, get_lem "config" device k, get_lem "device_type" device t)
validate_config-foreign config device inner others (dict_value fs) h k t u =
    rw (get_lem "devices" config h, get_lem "config" device k, get_lem "device_type" device t)
validate_config-foreign config device inner others v h k t u = absurd u
