-- ===== src/Config/Devices.antt =====
-- _validate_devices of config.py: the rules for each device, and those that span the list.
pub mod Pins
pub mod Ids
mod Tests
use text.Mathlib.Text.{◌==◌ as str_eq}
use pico_dualcore.Prelude.{
  ℕ, suc, Bool, true, false, not, ◌&&◌, ◌||◌, String, Option, none, some, List, [], ◌∷◌,
  if◌then◌else◌, leb, ltb, ◌==◌,
}
use pico_dualcore.Value.{
  Value, Items, nil, cons, Fields, none_value, int_value, str_value, list_value, dict_value,
}
use pico_dualcore.Config.Check.{
  Check, accepted, foreign, ◌>>=◌, ◌>>◌, Passed, pass, invalid, require, member, text_member, get,
  lookup, is_empty, as_object,
}
use pico_dualcore.Config.Pins.{effective_rp2_i2c_pins}
use pico_dualcore.Config.Sensor.Bme280
use pico_dualcore.Config.Sensor.Sht35
use pico_dualcore.Config.Definition.{validate_device_definition, i2c_bus_identity, BusIdentity}

abbrev pub max_devices : ℕ
max_devices = 16

abbrev pub count_items : Items → ℕ
count_items nil = 0
count_items (cons v vs) = suc (count_items vs)

-- A duplicate of a usable id; the result is the set of the ids with it.
unfoldable pub seen_id : Value → List String → Check (List String)
seen_id (str_value s) seen =
    if is_empty s
    then accepted seen
    else if text_member s seen
    then invalid
    else accepted (s ∷ seen)
seen_id v seen = accepted seen

-- The first loop; the result is the devices, which are objects.
unfoldable pub each_device : List String → Items → Check (List Fields)
unfolding seen_id
each_device seen nil = accepted []
each_device seen (cons v vs) = do
  device ← as_object v
  seen' ← seen_id (get "id" device) seen
  validate_device_definition device
  devices ← each_device seen' vs
  accepted (device ∷ devices)

abbrev number : Value → ℕ
number (int_value n) = n
number v = 0

-- Equality of validated settings: integers, or None.
abbrev same_setting : Value → Value → Bool
same_setting (int_value n) (int_value m) = n == m
same_setting none_value none_value = true
same_setting v w = false

same_bus_setting : BusIdentity → BusIdentity → Bool
same_bus_setting a b =
    same_setting a.sda b.sda && (same_setting a.scl b.scl && same_setting a.freq b.freq)

owner_of : ℕ → List (ℕ × BusIdentity) → Option BusIdentity
owner_of bus [] = none
owner_of bus ((b, identity) ∷ rest) = if b == bus then some identity else owner_of bus rest

claim_bus : Option BusIdentity → List (ℕ × BusIdentity) → Check (List (ℕ × BusIdentity))
unfolding same_bus_setting owner_of
claim_bus none owners = accepted owners
claim_bus (some identity) owners = elim (owner_of (number identity.bus) owners) [
  | none ↦ accepted ((number identity.bus, identity) ∷ owners)
  | some owner ↦ if same_bus_setting owner identity then accepted owners else invalid
]

unfoldable pub each_bus : List (ℕ × BusIdentity) → List Fields → Check Passed
unfolding claim_bus
each_bus owners [] = pass
each_bus owners (device ∷ devices) = do
  owners' ← claim_bus (i2c_bus_identity device) owners
  each_bus owners' devices

abbrev pub is_type : String → Fields → Bool
is_type t device = elim (get "device_type" device) [ str_value s ↦ str_eq s t | _ ↦ false ]

-- device["config"], or an empty object for what is none.
abbrev pub config_of : Fields → Fields
config_of device = elim (get "config" device) [ dict_value fs ↦ fs | _ ↦ Fields.end ]

-- The data pins of the 1-Wire devices.
unfoldable pub onewire_pins : List Fields → List ℕ
onewire_pins [] = []
onewire_pins (device ∷ devices) =
    let rest = onewire_pins devices in
    if is_type "ds18b20" device then number (get "pin" (config_of device)) ∷ rest else rest

-- One pin of a soil sensor: `if pin_key not in device_config: continue`.
claim_pin : List ℕ → Option Value → List ℕ → Check (List ℕ)
claim_pin onewire none owners = accepted owners
claim_pin onewire (some pin) owners =
    if member (number pin) owners || member (number pin) onewire
    then invalid
    else accepted (number pin ∷ owners)

claim_soil : List ℕ → Fields → List ℕ → Check (List ℕ)
unfolding claim_pin
claim_soil onewire config owners = do
  owners₁ ← claim_pin onewire (lookup "adc_pin" config) owners
  owners₂ ← claim_pin onewire (lookup "digital_pin" config) owners₁
  claim_pin onewire (lookup "power_pin" config) owners₂

-- The owners of the pins of the soil sensors.
unfoldable pub each_soil : List ℕ → List ℕ → List Fields → Check (List ℕ)
unfolding claim_soil
each_soil onewire owners [] = accepted owners
each_soil onewire owners (device ∷ devices) =
    let next = claim_soil onewire (config_of device) owners >>= λ owners'.
    each_soil onewire owners' devices in
    let skip = each_soil onewire owners devices in if is_type "yl69_fc28" device then next else skip

-- The pins that a device with a bus drives.
pub driven_pins : Fields → Option (ℕ × ℕ)
driven_pins device = elim (lookup "i2c_bus" (config_of device)) [
  | none ↦ none
  | some bus ↦ some (
      effective_rp2_i2c_pins (number bus) (get "i2c_sda_pin" (config_of device))
        (get "i2c_scl_pin" (config_of device)))
]

free_pins : List ℕ → List ℕ → Option (ℕ × ℕ) → Bool
free_pins onewire soil none = true
free_pins onewire soil (some (sda, scl)) =
    not (member sda onewire || member sda soil) && not (member scl onewire || member scl soil)

unfoldable pub each_driven : List ℕ → List ℕ → List Fields → Check Passed
unfolding driven_pins free_pins
each_driven onewire soil [] = pass
each_driven onewire soil (device ∷ devices) = do
  require (free_pins onewire soil (driven_pins device))
  each_driven onewire soil devices

-- The buses of the LTR390 devices, each with one only.
claim_ltr390 : Option Value → List ℕ → Check (List ℕ)
claim_ltr390 none buses = accepted buses
claim_ltr390 (some bus) buses =
    if member (number bus) buses then invalid else accepted (number bus ∷ buses)

unfoldable pub each_ltr390 : List ℕ → List Fields → Check Passed
unfolding claim_ltr390
each_ltr390 buses [] = pass
each_ltr390 buses (device ∷ devices) =
    let next = claim_ltr390 (lookup "i2c_bus" (config_of device)) buses >>= λ buses'.
    each_ltr390 buses' devices in
    let skip = each_ltr390 buses devices in if is_type "ltr390" device then next else skip

-- The address lists of the sensors of a type on a bus, the default in place of an omitted one.
address_list : List ℕ → Value → List ℕ
address_list default (list_value xs) = numbers xs
  where
    numbers : Items → List ℕ
    numbers nil = []
    numbers (cons v vs) = number v ∷ numbers vs
address_list default v = default

abbrev on_bus : ℕ → Option Value → Bool
on_bus bus none = false
on_bus bus (some v) = number v == bus

unfoldable pub entries_on : String → List ℕ → ℕ → List Fields → List (List ℕ)
unfolding address_list
entries_on t default bus [] = []
entries_on t default bus (device ∷ devices) =
    let rest = entries_on t default bus devices in
    if is_type t device && on_bus bus (lookup "i2c_bus" (config_of device))
    then address_list default (get "i2c_address_candidates" (config_of device)) ∷ rest
    else rest

-- Each names one address that none before it names.
unfoldable pub distinct_addresses : List ℕ → List (List ℕ) → Bool
distinct_addresses seen [] = true
distinct_addresses seen ((a ∷ []) ∷ rest) =
    not (member a seen) && distinct_addresses (a ∷ seen) rest
distinct_addresses seen (other ∷ rest) = false

abbrev few : List (List ℕ) → Bool
few [] = true
few (e ∷ []) = true
few (e ∷ (f ∷ es)) = false

unfoldable pub check_candidate_sensors : String → List ℕ → ℕ → List Fields → Check Passed
unfolding entries_on distinct_addresses
check_candidate_sensors t default bus devices =
    let entries = entries_on t default bus devices in
    require (few entries || distinct_addresses [] entries)

-- The loops that span the list, in order. The buses are 0 and 1.
unfoldable pub check_list : List Fields → Check Passed
check_list devices = do
  each_bus [] devices
  soil ← each_soil (onewire_pins devices) [] devices
  each_driven (onewire_pins devices) soil devices
  each_ltr390 [] devices
  check_candidate_sensors "bme280" Bme280.default_i2c_address_candidates 0 devices
  check_candidate_sensors "bme280" Bme280.default_i2c_address_candidates 1 devices
  check_candidate_sensors "sht35" Sht35.default_i2c_address_candidates 0 devices
  check_candidate_sensors "sht35" Sht35.default_i2c_address_candidates 1 devices

-- The list itself: not empty, and not too long.
unfoldable pub device_items : Value → Check Items
device_items (list_value (cons v vs)) =
    if ltb max_devices (count_items (cons v vs)) then invalid else accepted (cons v vs)
device_items v = invalid

unfoldable pub validate_devices : Value → Check (List Fields)
unfolding device_items check_list
validate_devices value = do
  items ← device_items value
  devices ← each_device [] items
  check_list devices
  accepted devices
