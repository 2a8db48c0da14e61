-- ===== src/Core1/Details/Tests.antt =====
-- A network section that raises, bytes for the memory, and no devices.
use text.Mathlib.Text.{◌==◌ as str_eq}
use pico_dualcore.Prelude.{String, Option, none, some, [], ◌∷◌, ◌≡◌, refl, true, if◌then◌else◌}
use pico_dualcore.Value.{Value, end, bytes_value, dict_value}
use pico_dualcore.Config.Check.{lookup}
use pico_dualcore.Message.{is_json_safe}
use pico_dualcore.Core1.State.{ok}
use pico_dualcore.Core0.Basics.{object}
use pico_dualcore.Core1.Details.{
  Gathered, gathered, failed, error_section, collect_sections, collect_system_information_full,
  collect_system_information_full-is_json_safe,
}

abbrev getter : String → Option (Gathered Value)
getter name =
    if str_eq name "network"
    then some (failed "unavailable")
    else if str_eq name "memory"
    then some (gathered (bytes_value []))
    else none

abbrev details : Value
details = dict_value (object (("network", error_section "unavailable") ∷ []))

collected_run : collect_system_information_full getter (some (gathered end)) ≡ ok details
unfolding collect_system_information_full collect_sections lookup is_json_safe
collected_run = refl

collect_system_information_full-is_json_safe_example : is_json_safe details ≡ true
collect_system_information_full-is_json_safe_example =
    collect_system_information_full-is_json_safe getter (some (gathered end)) details collected_run
