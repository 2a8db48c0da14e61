-- ===== src/ConfigManager/Changes/Complete/Tests.antt =====
-- The configuration of Config/Settings/Tests with another interval, and with another device.
use pico_dualcore.Prelude.{String, List, [], ◌∷◌, ◌≡◌, refl, All}
use pico_dualcore.Value.{Value, nil, cons, end, field, int_value, str_value, dict_value}
use pico_dualcore.CommandProtocol.{unknown_field_names}
use pico_dualcore.Config.Check.{accepted, lookup, has_key, get, item}
use pico_dualcore.Config.Settings.Tests.{example, example_accepted, slower, slower_accepted}
use pico_dualcore.Config.Unknown.{sorted_set}
use pico_dualcore.ConfigManager.Same.{same}
use pico_dualcore.ConfigManager.Changes.{
  Change, setting_change, device_change, order_change, ChangeType, changes_summary, device_changes,
}
use pico_dualcore.ConfigManager.Changes.Accepted.{settings}
use pico_dualcore.ConfigManager.Changes.Complete.{Right, Told, changes_summary-Told}

changes_summary_run :
    changes_summary example slower
    ≡ accepted (setting_change "read_loop_sec" (int_value 60) (int_value 120) ∷ [])
unfolding changes_summary unknown_field_names item lookup sorted_set same has_key get
changes_summary_run = refl

abbrev sensor : String → String → Value
sensor id kind =
    dict_value
      (field (str_value "id") (str_value id) (field (str_value "device_type") (str_value kind) end))

-- One device is gone, one changed its type, one is new; the order alone is one change.
device_changes_run :
    device_changes
      (cons (sensor "b" "bme280") (cons (sensor "a" "sht35") nil))
      (cons (sensor "c" "ltr390") (cons (sensor "b" "sht35") nil))
    ≡ accepted (
        device_change ChangeType.removed "a" (str_value "sht35")
        ∷ device_change ChangeType.modified "b" (str_value "sht35")
        ∷ device_change ChangeType.added "c" (str_value "ltr390")
        ∷ [])
unfolding device_changes item lookup sorted_set same has_key get
device_changes_run = refl

device_changes_order :
    device_changes
      (cons (sensor "b" "bme280") (cons (sensor "a" "sht35") nil))
      (cons (sensor "a" "sht35") (cons (sensor "b" "bme280") nil))
    ≡ accepted (order_change ∷ [])
unfolding device_changes item lookup sorted_set same has_key get
device_changes_order = refl

changes_summary-Told_example :
    (changes : List Change) × (changes_summary example slower ≡ accepted changes)
    × All (Right example slower) changes
    × All (Told example slower changes) settings
changes_summary-Told_example =
    changes_summary-Told (dict_value example) (dict_value slower) example_accepted slower_accepted
