-- ===== src/ConfigManager/Changes.antt =====
-- _device_changes and _changes_summary of config_manager.py.
pub mod Sorted
pub mod Accepted
pub mod Devices
pub mod Complete
use text.Mathlib.Text.{◌==◌ as str_eq}
use pico_dualcore.Prelude.{
  Bool, true, false, not, ◌&&◌, String, Option, none, some, is_some, List, [], ◌∷◌, ◌++◌,
  if◌then◌else◌,
}
use pico_dualcore.Value.{
  Value, Items, nil, cons, Fields, end, field, str_value, list_value, dict_value,
}
use pico_dualcore.Config.Check.{Check, accepted, foreign, ◌>>=◌, item}
use pico_dualcore.CommandProtocol.{unknown_field_names}
use pico_dualcore.Config.Unknown.{sorted_set}
use pico_dualcore.ConfigManager.Same.{same}

pub data ChangeType : Type 0 where
  added removed modified : ChangeType

-- A setting with its values, a device, or the order of the devices.
pub data Change : Type 0 where
  setting_change : String → Value → Value → Change
  device_change : ChangeType → String → Value → Change
  order_change : Change

abbrev pub items_of : Value → Check Items
items_of (list_value vs) = accepted vs
items_of v = foreign

abbrev pub fields_of : Value → Check Fields
fields_of (dict_value fs) = accepted fs
fields_of v = foreign

abbrev pub text_of : Value → Check String
text_of (str_value s) = accepted s
text_of v = foreign

abbrev pub Devices : Type 0
Devices = List (String × Fields)

-- {device["id"]: device for device in devices}; the device that comes last stands first.
unfoldable pub by_id : Devices → Items → Check Devices
by_id seen nil = accepted seen
by_id seen (cons v vs) = do
  device ← fields_of v
  value ← item "id" device
  id ← text_of value
  by_id ((id, device) ∷ seen) vs

unfoldable pub find : String → Devices → Option Fields
find id [] = none
find id ((j, device) ∷ rest) = if str_eq j id then some device else find id rest

abbrev pub ids_of : Devices → List String
ids_of [] = []
ids_of ((id, device) ∷ rest) = id ∷ ids_of rest

abbrev pub tell : ChangeType → String → Fields → Check (List Change)
tell change_type id device = do
  device_type ← item "device_type" device
  accepted (device_change change_type id device_type ∷ [])

-- One round of the loop over the ids.
abbrev pub one_device : String → Option Fields → Option Fields → Check (List Change)
one_device id none none = foreign
one_device id none (some new) = tell added id new
one_device id (some old) none = tell removed id old
one_device id (some old) (some new) =
    if same (dict_value old) (dict_value new) then accepted [] else tell modified id new

unfoldable pub each_id : Devices → Devices → List String → Check (List Change)
unfolding find
each_id olds news [] = accepted []
each_id olds news (id ∷ ids) = do
  here ← one_device id (find id olds) (find id news)
  rest ← each_id olds news ids
  accepted (here ++ rest)

-- A difference that no id accounts for.
abbrev pub or_order : Items → Items → List Change → List Change
or_order old_devices new_devices [] =
    if same (list_value old_devices) (list_value new_devices) then [] else order_change ∷ []
or_order old_devices new_devices changes = changes

unfoldable pub device_changes : Items → Items → Check (List Change)
unfolding by_id each_id
device_changes old_devices new_devices = do
  olds ← by_id [] old_devices
  news ← by_id [] new_devices
  changes ← each_id olds news (sorted_set (ids_of olds ++ ids_of news))
  accepted (or_order old_devices new_devices changes)

-- sorted(persisted), whose keys are all texts: no name is among those left out.
abbrev pub sorted_keys : Fields → List String
sorted_keys fs = unknown_field_names [] fs

module _ (persisted candidate : Fields) where
  unfoldable pub devices_told : Check (List Change)
  unfolding device_changes
  devices_told = do
    old ← item "devices" persisted
    old_devices ← items_of old
    new ← item "devices" candidate
    new_devices ← items_of new
    device_changes old_devices new_devices

  unfoldable pub setting_told : String → Check (List Change)
  setting_told key = do
    original_value ← item key persisted
    new_value ← item key candidate
    accepted (
        if same original_value new_value
        then []
        else setting_change key original_value new_value ∷ [])

  -- One round of the loop over the keys.
  abbrev pub one_key : String → Check (List Change)
  one_key key =
      if str_eq key "config_schema_version"
      then accepted []
      else (if str_eq key "devices" then devices_told else setting_told key)

  unfoldable pub every_key : List String → Check (List Change)
  unfolding devices_told setting_told
  every_key [] = accepted []
  every_key (key ∷ keys) = do here ← one_key key; rest ← every_key keys; accepted (here ++ rest)

-- _changes_summary
unfoldable pub changes_summary : Fields → Fields → Check (List Change)
unfolding every_key
changes_summary persisted candidate = every_key persisted candidate (sorted_keys persisted)
