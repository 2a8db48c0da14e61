-- ===== src/Config/Devices/Ids.antt =====
-- _validate_devices: the ids of the devices.
use text.Mathlib.TextEquality.{eq_iff}
use Prim.Native.String.{String, len}
use pico_dualcore.Prelude.{
  suc, ◌≤◌, true, false, some, List, [], ◌∷◌, ◌≡◌, ◌≢◌, refl, ◌∙◌, ap, subst, All, arith, length,
  ltb,
}
use pico_dualcore.Value.{Value, Items, nil, cons, Fields, str_value, list_value}
use pico_dualcore.Config.Check.{
  accepted, Passed, require, require_allowed, required, lookup, get, text_member, as_object,
}
use pico_dualcore.Config.Check.Laws.{split, required_true, required_lem, Distinct, unseen, get_lem}
use pico_dualcore.Config.Definition.{
  validate_device_definition, device_definition_keys, non_empty_string, bytes_within,
}
use pico_dualcore.Config.Devices.{
  seen_id, each_device, validate_devices, check_list, device_items, count_items, max_devices,
}

-- The device has the id, which is 1 to 64 bytes, and its definition is accepted.
pub record IsDevice (device : Fields) (id : String) : Type 0 where
  pub held : lookup "id" device ≡ some (str_value id)
  pub not_empty : id ≢ ""
  pub short : len id ≤ 64
  pub valid : validate_device_definition device ≡ accepted tt

abbrev pub Named : List Fields → List String → Type 0
Named [] [] = Unit
Named (d ∷ ds) (s ∷ ss) = IsDevice d s × Named ds ss
Named ds ss = ⊥

id_text :
    (v : Value)
    → non_empty_string v ≡ true
    → bytes_within 64 v ≡ true
    → (s : String) × (v ≡ str_value s) × (s ≢ "") × (len s ≤ 64)
id_text (str_value s) h k = (s, refl, ground (arith, eq_iff s ""), ground arith)
id_text v h k = cc

definition_lem :
    (device : Fields) {u : Passed}
    → validate_device_definition device ≡ accepted u
    → (s : String) × IsDevice device s
unfolding validate_device_definition
definition_lem device h =
    let (v₁, e₁, h₁) = split (required "id" device) _ h in
    let (v₂, e₂, h₂) = split (required "device_type" device) _ h₁ in
    let (v₃, e₃, h₃) = split (required "config" device) _ h₂ in
    let (u₄, e₄, h₄) = split (require_allowed device_definition_keys device) _ h₃ in
    let (u₅, e₅, h₅) = split (require (non_empty_string v₁)) _ h₄ in
    let (u₆, e₆, h₆) = split (require (bytes_within 64 v₁)) _ h₅ in
    let (s, is_text, ne, short) = id_text v₁ (required_true _ e₅) (required_true _ e₆) in
    (
      s,
      record {
        held = required_lem "id" device e₁ ∙ ap some is_text;
        not_empty = ne;
        short = short;
        valid = h;
      },
    )

seen_lem :
    (s : String) (seen : List String) {next : List String}
    → s ≢ ""
    → seen_id (str_value s) seen ≡ accepted next
    → (text_member s seen ≡ false) × (next ≡ s ∷ seen)
unfolding seen_id
seen_lem s seen ne h = ground (arith, eq_iff s "")

abbrev NamedApart : List String → Items → List Fields → Type 0
NamedApart seen items devices =
    (ids : List String) × Named devices ids
    × All (λ s. text_member s seen ≡ false) ids
    × Distinct ids
    × (length devices ≡ count_items items)

each_device_lem :
    (seen : List String) (items : Items) {devices : List Fields}
    → each_device seen items ≡ accepted devices
    → NamedApart seen items devices
unfolding each_device
each_device_lem seen nil {devices} h =
    let same : [] ≡ devices = ground arith in
    subst (NamedApart seen nil) same ([], tt, tt, tt, refl)
each_device_lem seen (cons v vs) {devices} h =
    let (device, e₁, h₁) = split (as_object v) _ h in
    let (seen', e₂, h₂) = split (seen_id (get "id" device) seen) _ h₁ in
    let (u₃, e₃, h₃) = split (validate_device_definition device) _ h₂ in
    let (ds, e₄, h₄) = split (each_device seen' vs) _ h₃ in
    let (s, ok) = definition_lem device e₃ in
    let (out, is_next) =
      seen_lem s seen {next = seen'} ok.not_empty (rw (get_lem "id" device ok.held) at e₂) in
    let (ss, named, outs, distinct, same_length) = each_device_lem seen' vs e₄ in
    let (nes, rest) = unseen s seen ss (rw is_next at outs) in
    let same : device ∷ ds ≡ devices = ground arith in
    subst (NamedApart seen (cons v vs)) same
      (s ∷ ss, (ok, named), (out, rest), (nes, distinct), ap suc same_length)

list_length :
    (value : Value) {items : Items}
    → device_items value ≡ accepted items
    → (1 ≤ count_items items) × (count_items items ≤ max_devices)
unfolding device_items
list_length (list_value (cons v vs)) {items} h =
    let (short, same) : (ltb max_devices (count_items (cons v vs)) ≡ false) × (cons v vs ≡ items) =
      ground arith in
    (
      subst (λ xs. 1 ≤ count_items xs) same (omega arith),
      subst (λ xs. count_items xs ≤ max_devices) same (ground arith),
    )
list_length v h = cc

-- The devices of a list that is accepted: there are 1 to 16, each has an id of 1 to 64 bytes and a
-- definition that is accepted, and no two have the same id.
pub validate_devices-Ids :
    (value : Value) {devices : List Fields}
    → validate_devices value ≡ accepted devices
    → (ids : List String) × Named devices ids
      × Distinct ids
      × (1 ≤ length devices)
      × (length devices ≤ 16)
unfolding validate_devices
validate_devices-Ids value {devices} h =
    let (items, e₁, h₁) = split (device_items value) _ h in
    let (ds, e₂, h₂) = split (each_device [] items) _ h₁ in
    let (u, e₃, h₃) = split (check_list ds) _ h₂ in
    let same : ds ≡ devices = ground arith in
    let (ids, named, outs, distinct, same_length) =
      subst (NamedApart [] items) same (each_device_lem [] items e₂) in
    let (a, b) = list_length value e₁ in (ids, named, distinct, omega arith, omega arith)
