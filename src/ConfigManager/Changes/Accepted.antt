-- ===== src/ConfigManager/Changes/Accepted.antt =====
-- What _changes_summary finds in a configuration that is accepted.
use text.Mathlib.Text.{◌==◌ as str_eq}
use text.Mathlib.TextEquality.{eq_iff}
use pico_dualcore.Prelude.{
  true, inl, inr, String, some, List, [], ◌∷◌, ◌++◌, ◌≡◌, refl, arith, Bool-cases,
}
use pico_dualcore.Value.{
  Value, Items, nil, cons, Fields, end, field, str_value, list_value, dict_value,
}
use pico_dualcore.CommandProtocol.{member}
use pico_dualcore.CommandProtocol.Names.{unknown_field_names-member}
use pico_dualcore.Config.Check.{
  accepted, Passed, item, require, require_allowed, required, lookup, get, as_object, has_key,
  is_key, text_member,
}
use pico_dualcore.Config.Check.Laws.{split, required_lem, required_true, item_lem}
use pico_dualcore.Config.Unknown.{unknown_config_paths, unknown_keys, list_unknown}
use pico_dualcore.Config.Definition.{
  validate_device_definition, device_definition_keys, non_empty_string,
}
use pico_dualcore.Config.Devices.{seen_id, each_device, validate_devices, device_items}
use pico_dualcore.Config.Settings.{
  required_keys, check_keys, check_lists, validate_delays, refuse_unknown, all_present,
}
use pico_dualcore.Config.Split.{present_of}
use pico_dualcore.ConfigManager.Changes.{sorted_keys, items_of}
use pico_dualcore.ConfigManager.Changes.Sorted.{sorted_set-empty}

abbrev pub HasType : Fields → Type 0
HasType device = (t : Value) × (lookup "device_type" device ≡ some t)

-- Each device has an id that is a text, and a type.
abbrev pub AllDevices : Items → Type 0
AllDevices nil = Unit
AllDevices (cons (dict_value device) vs) =
    ((s : String) × (lookup "id" device ≡ some (str_value s))) × HasType device × AllDevices vs
AllDevices (cons v vs) = ⊥

id_text : (v : Value) → non_empty_string v ≡ true → (s : String) × (v ≡ str_value s)
id_text (str_value s) h = (s, refl)
id_text v h = cc

definition_lem :
    (device : Fields) {u : Passed}
    → validate_device_definition device ≡ accepted u
    → ((s : String) × (lookup "id" device ≡ some (str_value s))) × HasType device
unfolding validate_device_definition
definition_lem device h =
    let (v₁, e₁, h₁) = split (required "id" device) _ h in
    let (v₂, e₂, h₂) = split (required "device_type" device) _ h₁ in
    let (v₃, e₃, h₃) = split (required "config" device) _ h₂ in
    let (u₄, e₄, h₄) = split (require_allowed device_definition_keys device) _ h₃ in
    let (u₅, e₅, h₅) = split (require (non_empty_string v₁)) _ h₄ in
    let (s, is_text) = id_text v₁ (required_true _ e₅) in
    ((s, rw (← is_text) (required_lem "id" device e₁)), (v₂, required_lem "device_type" device e₂))

cons_lem :
    (v : Value) (vs : Items) {device : Fields}
    → as_object v ≡ accepted device
    → ((s : String) × (lookup "id" device ≡ some (str_value s))) × HasType device
    → AllDevices vs
    → AllDevices (cons v vs)
cons_lem (dict_value fs) vs {device} h d ds = let e : fs ≡ device = cc in rw e (d.0, d.1, ds)
cons_lem v vs h d ds = cc

each_device-AllDevices :
    (seen : List String) (items : Items) {devices : List Fields}
    → each_device seen items ≡ accepted devices
    → AllDevices items
unfolding each_device
each_device-AllDevices seen nil h = tt
each_device-AllDevices seen (cons v vs) h =
    let (device, e₁, h₁) = split (as_object v) _ h in
    let (seen', e₂, h₂) = split (seen_id (get "id" device) seen) _ h₁ in
    let (u₃, e₃, h₃) = split (validate_device_definition device) _ h₂ in
    let (ds, e₄, h₄) = split (each_device seen' vs) _ h₃ in
    cons_lem v vs e₁ (definition_lem device e₃) (each_device-AllDevices seen' vs e₄)

-- A device list that is accepted, as a list of devices.
abbrev pub DeviceList : Value → Type 0
DeviceList v =
    (items : Items) × (items_of v ≡ accepted items) × (v ≡ list_value items) × AllDevices items

list_lem :
    (v : Value) {items : Items}
    → device_items v ≡ accepted items
    → (items_of v ≡ accepted items) × (v ≡ list_value items)
unfolding device_items
list_lem (list_value (cons v vs)) {items} h =
    let e : cons v vs ≡ items = ground arith in rw (← e) (refl, refl)
list_lem v h = cc

pub validate_devices-DeviceList :
    (v : Value) {devices : List Fields} → validate_devices v ≡ accepted devices → DeviceList v
unfolding validate_devices
validate_devices-DeviceList v h =
    let (items, e₁, h₁) = split (device_items v) _ h in
    let (ds, e₂, h₂) = split (each_device [] items) _ h₁ in
    let (is_list, same_value) = list_lem v e₁ in
    (items, is_list, same_value, each_device-AllDevices [] items e₂)

-- Every key of a configuration but the version of the schema.
abbrev pub after_first : List String → List String
after_first [] = []
after_first (k ∷ ks) = ks

abbrev pub settings : List String
settings = after_first required_keys

-- A key of a configuration that is accepted is one of the required keys.
unknown_keys-none :
    (k prefix : String) (allowed : List String) (fs : Fields)
    → unknown_keys prefix allowed fs ≡ []
    → has_key k fs ≡ true
    → text_member k allowed ≡ true
unfolding unknown_keys has_key lookup is_key
unknown_keys-none k prefix allowed end h m = cc
unknown_keys-none k prefix allowed (field (str_value s) v fs) h m =
    elim (Bool-cases (text_member s allowed)) [
      | inl known ↦ elim (Bool-cases (str_eq s k)) [
        | inl here ↦ let e : s ≡ k = ground (arith, eq_iff s k) in rw (← e) known
        | inr other ↦ unknown_keys-none k prefix allowed fs (ground arith) (ground arith)
      ]
      | inr unknown ↦ absurd (ground arith)
    ]
unknown_keys-none k prefix allowed (field key v fs) h m = unknown_keys-none k prefix allowed fs h m

append_none : {A : Type 0} (xs ys : List A) → xs ++ ys ≡ [] → xs ≡ []
append_none [] ys h = refl
append_none (x ∷ xs) ys h = cc

pub known_key :
    (config : Fields) (k : String)
    → check_keys config ≡ accepted tt
    → has_key k config ≡ true
    → text_member k required_keys ≡ true
unfolding check_keys unknown_config_paths refuse_unknown
known_key config k h m =
    let (unknown, e, h₁) = split (unknown_config_paths required_keys config) _ h in
    let (deep, e₁, h₂) = split (list_unknown (get "devices" config)) _ e in
    let (u, e₂, h₃) = split (refuse_unknown unknown) _ h₁ in
    unknown_keys-none k "" required_keys config
      (append_none _ deep (sorted_set-empty _ (none_refused _ unknown h₂ u e₂))) m
  where
    none_refused :
        (xs unknown : List String)
        → accepted xs ≡ accepted unknown
        → (u : Passed) → refuse_unknown unknown ≡ accepted u
        → xs ≡ []
    none_refused xs [] e u r = cc
    none_refused xs (s ∷ ss) e u r = cc

-- The devices of a configuration that is accepted.
pub devices_lem :
    (config : Fields)
    → check_lists config ≡ accepted tt
    → (v : Value) × (lookup "devices" config ≡ some v) × DeviceList v
unfolding check_lists
devices_lem config h =
    let (u₁, e₁, h₁) = split (validate_delays "wifi_reconnect_delays_sec" config) _ h in
    let (u₂, e₂, h₂) = split (validate_delays "mqtt_reconnect_delays_sec" config) _ h₁ in
    let (v, e₃, h₃) = split (item "devices" config) _ h₂ in
    let (ds, e₄, h₄) = split (validate_devices v) _ h₃ in
    (v, item_lem "devices" config e₃, validate_devices-DeviceList v e₄)

pub in_sorted_keys :
    (p : Fields) (k : String) → member k (sorted_keys p) ≡ true → has_key k p ≡ true
unfolding member
in_sorted_keys p k m = ground (arith, m, unknown_field_names-member [] p k)

pub setting_in_keys :
    (p : Fields) (k : String)
    → all_present required_keys p ≡ true
    → member k settings ≡ true
    → member k (sorted_keys p) ≡ true
unfolding member text_member
setting_in_keys p k all m =
    let h = present_of k required_keys p (ground (arith, m)) all in
    ground (arith, h, unknown_field_names-member [] p k)
