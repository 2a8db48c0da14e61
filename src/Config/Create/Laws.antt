-- ===== src/Config/Create/Laws.antt =====
-- create_device on a definition that is accepted.
use Prim.Native.String.{String}
use text.Mathlib.Text.{◌==◌ as str_eq}
use text.Mathlib.TextEquality.{eq_iff}
use pico_dualcore.Prelude.{
  ℕ, true, false, Option, none, some, List, ◌≡◌, refl, ◌∙◌, ap, arith, inl, inr, Bool-cases,
}
use pico_dualcore.Value.{Value, Fields, end, field, str_value, dict_value}
use pico_dualcore.Config.Check.{
  Check, accepted, Passed, require, require_allowed, only_allowed, text_member, lookup, get, item,
  required,
}
use pico_dualcore.Config.Check.Laws.{split, required_true, required_lem, get_lem}
use pico_dualcore.Config.Sensor.{check_bus}
use pico_dualcore.Config.Sensor.Bme280.{validate_bme280}
use pico_dualcore.Config.Sensor.Ltr390.{validate_ltr390}
use pico_dualcore.Config.Sensor.Ds18b20.{validate_ds18b20}
use pico_dualcore.Config.Sensor.Sht35.{validate_sht35}
use pico_dualcore.Config.Sensor.Yl69Fc28.{validate_yl69_fc28, validate_yl69_fc28_lem}
use pico_dualcore.Config.Definition.{
  DeviceType, bme280, ltr390, ds18b20, sht35, yl69_fc28, registered, BusIdentity, validate_by_type,
  validate_device_definition, device_definition_keys, non_empty_string, bytes_within,
  i2c_bus_identity, registry_entry, validate_device_config, is_object, check_name,
}
use pico_dualcore.Config.Create.{
  Factories, Driver, i2c_driver, onewire_driver, adc_driver, create_device, create_by_type,
}

-- The field is there.
Held : String → Fields → Type 0
Held k fs = (v : Value) × (lookup k fs ≡ some v)

not_allowed :
    (k : String) (allowed : List String) (fs : Fields)
    → text_member k allowed ≡ false
    → only_allowed allowed fs ≡ true
    → lookup k fs ≡ none
unfolding lookup only_allowed
not_allowed k allowed end h g = refl
not_allowed k allowed (field (str_value s) v fs) h g =
    let ih = not_allowed k allowed fs h (ground arith) in
    elim (Bool-cases (str_eq s k)) [
      | inl is_k ↦
          let same : s ≡ k = ground (arith, eq_iff s k) in
          let inside : text_member s allowed ≡ true = ground arith in
          absurd (let m = ap (λ t. text_member t allowed) same in cc)
      | inr other ↦ rw other ih
    ]
not_allowed k allowed (field key v fs) h g = cc

allowed_lem :
    (allowed : List String) (fs : Fields) {u : Passed}
    → require_allowed allowed fs ≡ accepted u
    → only_allowed allowed fs ≡ true
unfolding require_allowed
allowed_lem allowed fs h = ground arith

check_bus_lem :
    (fs : Fields) {n : ℕ} → check_bus fs ≡ accepted n → (v : Value) × (lookup "i2c_bus" fs ≡ some v)
unfolding check_bus
check_bus_lem fs h =
    let (v, e, h₁) = split (required "i2c_bus" fs) _ h in (v, required_lem "i2c_bus" fs e)

-- What each type's validation says of the keys that its driver is made from.
abbrev Needs : DeviceType → Fields → Type 0
Needs ds18b20 fs = ((v : Value) × (lookup "pin" fs ≡ some v)) × (lookup "i2c_bus" fs ≡ none)
Needs yl69_fc28 fs = ((v : Value) × (lookup "adc_pin" fs ≡ some v)) × (lookup "i2c_bus" fs ≡ none)
Needs t fs = (v : Value) × (lookup "i2c_bus" fs ≡ some v)

needs :
    (t : DeviceType) (fs : Fields) {u : Passed}
    → validate_by_type (some t) (dict_value fs) ≡ accepted u
    → Needs t fs
unfolding validate_by_type validate_bme280 validate_ltr390 validate_sht35 validate_ds18b20
    validate_yl69_fc28 text_member
needs bme280 fs h =
    let (u, e, h₁) = split (require_allowed _ fs) _ h in
    let (n, e₁, h₂) = split (check_bus fs) _ h₁ in check_bus_lem fs e₁
needs ltr390 fs h =
    let (u, e, h₁) = split (require_allowed _ fs) _ h in
    let (n, e₁, h₂) = split (check_bus fs) _ h₁ in check_bus_lem fs e₁
needs sht35 fs h =
    let (u, e, h₁) = split (require_allowed _ fs) _ h in
    let (n, e₁, h₂) = split (check_bus fs) _ h₁ in check_bus_lem fs e₁
needs ds18b20 fs h =
    let (u, e, h₁) = split (require_allowed _ fs) _ h in
    let (v, e₁, h₂) = split (required "pin" fs) _ h₁ in
    ((v, required_lem "pin" fs e₁), not_allowed "i2c_bus" _ fs refl (allowed_lem _ fs e))
needs yl69_fc28 fs h =
    let (e, adc) = validate_yl69_fc28_lem fs h in
    (adc, not_allowed "i2c_bus" _ fs refl (allowed_lem _ fs e))

item-some : (k : String) (fs : Fields) {v : Value} → lookup k fs ≡ some v → item k fs ≡ accepted v
unfolding item
item-some k fs h = rw h refl

-- The bus of the call to the I2C factory, if that is the call.
abbrev pub bus_of : Driver → Option BusIdentity
bus_of (i2c_driver t bus) = some bus
bus_of (onewire_driver pin) = none
bus_of (adc_driver pin) = none

abbrev pub all_given : Factories
all_given = record { i2c_bus_factory = true; onewire_bus_factory = true; adc_bus_factory = true }

-- The type whose driver it is: each type on an I2C bus has a driver of its own.
abbrev pub type_of : Driver → DeviceType
type_of (i2c_driver t bus) = t
type_of (onewire_driver pin) = ds18b20
type_of (adc_driver pin) = yl69_fc28

-- The pin that the factory is asked for is that of the configuration.
abbrev pub HasPin : Fields → Driver → Type 0
HasPin cfg (i2c_driver t bus) = Unit
HasPin cfg (onewire_driver pin) = lookup "pin" cfg ≡ some pin
HasPin cfg (adc_driver pin) = lookup "adc_pin" cfg ≡ some pin

Made : Fields → Fields → Option DeviceType → Check Driver → Type 0
Made device cfg entry m =
    (driver : Driver) × (m ≡ accepted driver)
    × (bus_of driver ≡ i2c_bus_identity device)
    × (entry ≡ some (type_of driver))
    × HasPin cfg driver

driver_of_type :
    (device fs : Fields) (t : DeviceType)
    → lookup "config" device ≡ some (dict_value fs)
    → Needs t fs
    → Made device fs (some t) (create_by_type all_given device (some t))
unfolding create_by_type i2c_bus_identity Made
driver_of_type device fs bme280 h (v, e) =
    rw (item-some "config" device h, get_lem "config" device h, item-some "i2c_bus" fs e, e)
      (_, refl, refl, refl, tt)
driver_of_type device fs ltr390 h (v, e) =
    rw (item-some "config" device h, get_lem "config" device h, item-some "i2c_bus" fs e, e)
      (_, refl, refl, refl, tt)
driver_of_type device fs sht35 h (v, e) =
    rw (item-some "config" device h, get_lem "config" device h, item-some "i2c_bus" fs e, e)
      (_, refl, refl, refl, tt)
driver_of_type device fs ds18b20 h ((v, e), out) =
    rw (item-some "config" device h, get_lem "config" device h, item-some "pin" fs e, out)
      (onewire_driver v, refl, refl, refl, e)
driver_of_type device fs yl69_fc28 h ((v, e), out) =
    rw (item-some "config" device h, get_lem "config" device h, item-some "adc_pin" fs e, out)
      (adc_driver v, refl, refl, refl, e)

text_of : (v : Value) → non_empty_string v ≡ true → (s : String) × (v ≡ str_value s)
text_of (str_value s) h = (s, refl)
text_of v h = cc

object_of : (v : Value) → is_object v ≡ true → (fs : Fields) × (v ≡ dict_value fs)
object_of (dict_value fs) h = (fs, refl)
object_of v h = cc

driver_of_name :
    (device fs : Fields) (s : String) {u : Passed}
    → lookup "config" device ≡ some (dict_value fs)
    → validate_device_config (str_value s) (dict_value fs) ≡ accepted u
    → Made device fs (registered s) (create_by_type all_given device (registered s))
unfolding validate_device_config registry_entry validate_by_type
driver_of_name device fs s h k = go (registered s) k
  where
    go :
        (entry : Option DeviceType) {u : Passed}
        → validate_by_type entry (dict_value fs) ≡ accepted u
        → Made device fs entry (create_by_type all_given device entry)
    go none k = cc
    go (some t) k = driver_of_type device fs t h (needs t fs k)

-- create_device makes the driver registered for the type, on the bus that validation compares, with
-- the pin of the configuration.
abbrev pub Driven : Fields → Type 0
Driven device =
    (driver : Driver) × (create_device all_given device ≡ accepted driver)
    × (bus_of driver ≡ i2c_bus_identity device)
    × (s : String) × (cfg : Fields) × (lookup "device_type" device ≡ some (str_value s))
    × (registered s ≡ some (type_of driver))
    × (lookup "config" device ≡ some (dict_value cfg))
    × HasPin cfg driver

driver_from :
    (device : Fields) (device_type config : Value) {u : Passed}
    → lookup "device_type" device ≡ some device_type
    → lookup "config" device ≡ some config
    → non_empty_string device_type ≡ true
    → is_object config ≡ true
    → validate_device_config device_type config ≡ accepted u
    → Driven device
unfolding create_device Made
driver_from device device_type config e₁ e₂ t o h =
    let (s, is_s) = text_of device_type t in
    let (fs, is_fs) = object_of config o in
    let (driver, made, bus, entry, pin) =
      driver_of_name device fs s (e₂ ∙ ap some is_fs) (rw (is_s, is_fs) at h) in
    (
      driver,
      rw (item-some "device_type" device (e₁ ∙ ap some is_s)) made,
      bus,
      s,
      fs,
      e₁ ∙ ap some is_s,
      entry,
      e₂ ∙ ap some is_fs,
      pin,
    )

-- With all three factories given, a device whose definition is accepted gets the driver of the type that
-- is registered under its device_type; the I2C bus asked for is the one that validation compares,
-- none for the other types, and the pin asked for is that of its config.
pub create_device-validated :
    (device : Fields) → validate_device_definition device ≡ accepted tt → Driven device
unfolding validate_device_definition Made
create_device-validated device h =
    let (v₁, e₁, h₁) = split (required "id" device) _ h in
    let (v₂, e₂, h₂) = split (required "device_type" device) _ h₁ in
    let (v₃, e₃, h₃) = split (required "config" device) _ h₂ in
    let (u₄, e₄, h₄) = split (require_allowed device_definition_keys device) _ h₃ in
    let (u₅, e₅, h₅) = split (require (non_empty_string v₁)) _ h₄ in
    let (u₆, e₆, h₆) = split (require (bytes_within 64 v₁)) _ h₅ in
    let (u₇, e₇, h₇) = split (require (non_empty_string v₂)) _ h₆ in
    let (u₈, e₈, h₈) = split (require (is_object v₃)) _ h₇ in
    let (u₉, e₉, h₉) = split (check_name (get "name" device)) _ h₈ in
    driver_from device v₂ v₃ (required_lem "device_type" device e₂)
      (required_lem "config" device e₃) (required_true _ e₇) (required_true _ e₈) h₉
