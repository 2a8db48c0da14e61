-- ===== src/Config/Devices/Pins.antt =====
-- _validate_devices: the pins of the soil sensors, against each other, the 1-Wire pins and the I2C buses.
use pico_dualcore.Prelude.{
  ℕ, Bool, true, false, Option, none, some, List, [], ◌∷◌, ◌++◌, ◌≡◌, refl, sym, ◌∙◌, ap, subst,
  All, arith, if◌then◌else◌,
}
use pico_dualcore.Value.{Value, Fields, int_value}
use pico_dualcore.Config.Check.{
  Check, accepted, refused, foreign, ◌>>=◌, Passed, require, lookup, member,
}
use pico_dualcore.Config.Check.Laws.{split, required_true}
use pico_dualcore.Config.Devices.{
  number, is_type, config_of, onewire_pins, claim_pin, claim_soil, each_soil, driven_pins,
  free_pins, each_driven, validate_devices, each_device, check_list, device_items, each_bus,
}

-- A number in the list, and none.
abbrev pin_of : Option Value → List ℕ
pin_of none = []
pin_of (some v) = number v ∷ []

-- The pins of the soil sensors.
abbrev soil_of : Fields → List ℕ
soil_of config =
    pin_of (lookup "adc_pin" config)
    ++ (pin_of (lookup "digital_pin" config) ++ pin_of (lookup "power_pin" config))

abbrev pub soil_pins : List Fields → List ℕ
soil_pins [] = []
soil_pins (device ∷ devices) =
    let rest = soil_pins devices in
    if is_type "yl69_fc28" device then soil_of (config_of device) ++ rest else rest

abbrev both : Option (ℕ × ℕ) → List ℕ
both none = []
both (some (sda, scl)) = sda ∷ scl ∷ []

-- The pins of the buses, as they are driven.
abbrev pub i2c_pins : List Fields → List ℕ
i2c_pins [] = []
i2c_pins (device ∷ devices) = both (driven_pins device) ++ i2c_pins devices

abbrev pub Outside : List ℕ → ℕ → Type 0
Outside ps p = member p ps ≡ false

abbrev pub Apart : List ℕ → Type 0
Apart [] = Unit
Apart (p ∷ ps) = Outside ps p × Apart ps

-- The claims for a list of pins, one after the other.
claims : List ℕ → List ℕ → List ℕ → Check (List ℕ)
claims onewire [] owners = accepted owners
claims onewire (p ∷ ps) owners = claim_pin onewire (some (int_value p)) owners >>= claims onewire ps

abbrev onto : List ℕ → List ℕ → List ℕ
onto [] owners = owners
onto (p ∷ ps) owners = onto ps (p ∷ owners)

claims_one :
    (onewire : List ℕ) (o : Option Value) (ps owners : List ℕ)
    → claims onewire (pin_of o ++ ps) owners ≡ (claim_pin onewire o owners >>= claims onewire ps)
unfolding claims claim_pin
claims_one onewire none ps owners = refl
claims_one onewire (some v) ps owners = refl

bind_assoc :
    {A B C : Type 0} (m : Check A) (f : A → Check B) (g : B → Check C)
    → ((m >>= f) >>= g) ≡ (m >>= λ a. f a >>= g)
bind_assoc (accepted a) f g = refl
bind_assoc (refused c u) f g = refl
bind_assoc foreign f g = refl

bind_cong :
    {A B : Type 0} (m : Check A) {f g : A → Check B} → ((a : A) → f a ≡ g a) → (m >>= f) ≡ (m >>= g)
bind_cong (accepted a) h = h a
bind_cong (refused c u) h = refl
bind_cong foreign h = refl

pin_append :
    (o : Option Value) (xs ys : List ℕ) → ((pin_of o ++ xs) ++ ys) ≡ (pin_of o ++ (xs ++ ys))
pin_append none xs ys = refl
pin_append (some v) xs ys = refl

claims_three :
    (onewire : List ℕ) (adc digital power : Option Value) (ps owners : List ℕ)
    → claims onewire ((pin_of adc ++ (pin_of digital ++ pin_of power)) ++ ps) owners ≡ (
        (claim_pin onewire adc owners >>= λ o.
        claim_pin onewire digital o >>= claim_pin onewire power)
        >>= claims onewire ps)
claims_three onewire adc digital power ps owners =
    ap (λ qs. claims onewire qs owners)
      (pin_append adc (pin_of digital ++ pin_of power) ps
        ∙ ap (λ qs. pin_of adc ++ qs) (pin_append digital (pin_of power) ps))
    ∙ claims_one onewire adc (pin_of digital ++ (pin_of power ++ ps)) owners
    ∙ bind_cong (claim_pin onewire adc owners) (λ o.
      claims_one onewire digital (pin_of power ++ ps) o
      ∙ bind_cong (claim_pin onewire digital o) (λ o'. claims_one onewire power ps o')
      ∙ sym
          (bind_assoc (claim_pin onewire digital o) (claim_pin onewire power) (claims onewire ps)))
    ∙ sym (
        bind_assoc (claim_pin onewire adc owners)
          (λ o. claim_pin onewire digital o >>= claim_pin onewire power) (claims onewire ps))

claims_soil :
    (onewire : List ℕ) (config : Fields) (ps owners : List ℕ)
    → claims onewire (soil_of config ++ ps) owners
      ≡ (claim_soil onewire config owners >>= claims onewire ps)
unfolding claim_soil
claims_soil onewire config ps owners =
    claims_three onewire (lookup "adc_pin" config) (lookup "digital_pin" config)
      (lookup "power_pin" config) ps owners

choose :
    {A B : Type 0} (f : B → A) (b : Bool) {x y : A} {u v : B}
    → x ≡ f u
    → y ≡ f v
    → (if b then x else y) ≡ f (if b then u else v)
choose f true h k = h
choose f false h k = k

-- Each pin of the soil sensors is claimed once, in the order of the list.
each_soil-claims :
    (onewire owners : List ℕ) (devices : List Fields)
    → each_soil onewire owners devices ≡ claims onewire (soil_pins devices) owners
unfolding each_soil claims
each_soil-claims onewire owners [] = refl
each_soil-claims onewire owners (device ∷ devices) =
    choose (λ qs. claims onewire qs owners) (is_type "yl69_fc28" device)
      (bind_cong (claim_soil onewire (config_of device) owners)
          (λ owners'. each_soil-claims onewire owners' devices)
        ∙ sym (claims_soil onewire (config_of device) (soil_pins devices) owners))
      (each_soil-claims onewire owners devices)

claim_pin_lem :
    (onewire owners : List ℕ) (p : ℕ) {next : List ℕ}
    → claim_pin onewire (some (int_value p)) owners ≡ accepted next
    → (next ≡ p ∷ owners) × Outside owners p × Outside onewire p
unfolding claim_pin
claim_pin_lem onewire owners p h = ground arith

unclaimed :
    (p : ℕ) (owners ps : List ℕ)
    → All (Outside (p ∷ owners)) ps
    → Outside ps p × All (Outside owners) ps
unclaimed p owners [] h = (refl, tt)
unclaimed p owners (q ∷ qs) (a, h) =
    let (out, outs) = unclaimed p owners qs h in (ground arith, (ground arith, outs))

claims_lem :
    (onewire ps owners : List ℕ) {soil : List ℕ}
    → claims onewire ps owners ≡ accepted soil
    → Apart ps × All (Outside owners) ps × All (Outside onewire) ps × (soil ≡ onto ps owners)
unfolding claims
claims_lem onewire [] owners h = (tt, tt, tt, ground arith)
claims_lem onewire (p ∷ ps) owners h =
    let (next, e, h₁) = split (claim_pin onewire (some (int_value p)) owners) _ h in
    let (is_next, out, free) = claim_pin_lem onewire owners p {next = next} e in
    let (apart, outs, frees, same) = claims_lem onewire ps next h₁ in
    let (mine, others) = unclaimed p owners ps (rw is_next at outs) in
    ((mine, apart), (out, others), (free, frees), same ∙ ap (onto ps) is_next)

-- What is outside a list is outside its parts.
not_in_parts :
    (p : ℕ) (ps owners : List ℕ) → Outside (onto ps owners) p → Outside ps p × Outside owners p
not_in_parts p [] owners h = (refl, h)
not_in_parts p (q ∷ ps) owners h =
    let (a, b) = not_in_parts p ps (q ∷ owners) h in (ground arith, ground arith)

driven_lem :
    (onewire ps : List ℕ) (devices : List Fields) {u : Passed}
    → each_driven onewire (onto ps []) devices ≡ accepted u
    → All (Outside onewire) (i2c_pins devices) × All (Outside ps) (i2c_pins devices)
unfolding each_driven free_pins
driven_lem onewire ps [] h = (tt, tt)
driven_lem onewire ps (device ∷ devices) h =
    let (u₁, e₁, h₁) = split (require (free_pins onewire (onto ps []) (driven_pins device))) _ h in
    let (ins, bs) = driven_lem onewire ps devices h₁ in
    go (driven_pins device) (required_true _ e₁) ins bs
  where
    go :
        (o : Option (ℕ × ℕ))
        → free_pins onewire (onto ps []) o ≡ true
        → All (Outside onewire) (i2c_pins devices)
        → All (Outside ps) (i2c_pins devices)
        → All (Outside onewire) (both o ++ i2c_pins devices)
          × All (Outside ps) (both o ++ i2c_pins devices)
    go none t ins bs = (ins, bs)
    go (some (sda, scl)) t ins bs =
        let (f, g) = not_in_parts sda ps [] (ground arith) in
        let (k, l) = not_in_parts scl ps [] (ground arith) in
        ((ground arith, (ground arith, ins)), (f, (k, bs)))

abbrev PinsHold : List Fields → Type 0
PinsHold devices =
    Apart (soil_pins devices)
    × All (Outside (onewire_pins devices)) (soil_pins devices)
    × All (Outside (onewire_pins devices)) (i2c_pins devices)
    × All (Outside (soil_pins devices)) (i2c_pins devices)

check_list_lem :
    (devices : List Fields) {u : Passed} → check_list devices ≡ accepted u → PinsHold devices
unfolding check_list
check_list_lem devices h =
    let (u₁, e₁, h₁) = split (each_bus [] devices) _ h in
    let (soil, e₂, h₂) = split (each_soil (onewire_pins devices) [] devices) _ h₁ in
    let (u₃, e₃, h₃) = split (each_driven (onewire_pins devices) soil devices) _ h₂ in
    let (apart, nones, frees, same) =
      claims_lem (onewire_pins devices) (soil_pins devices) []
        (sym (each_soil-claims (onewire_pins devices) [] devices) ∙ e₂) in
    let (ins, outs) =
      driven_lem (onewire_pins devices) (soil_pins devices) devices (rw same at e₃) in
    (apart, frees, ins, outs)

-- The pins of a device list that is accepted: a soil sensor's pin has no second use among the soil
-- sensors' pins and is no 1-Wire data pin, and the pins that the I2C buses drive, the defaults
-- included, are neither.
pub validate_devices-Pins :
    (value : Value) {devices : List Fields}
    → validate_devices value ≡ accepted devices
    → Apart (soil_pins devices)
      × All (Outside (onewire_pins devices)) (soil_pins devices)
      × All (Outside (onewire_pins devices)) (i2c_pins devices)
      × All (Outside (soil_pins devices)) (i2c_pins devices)
unfolding validate_devices
validate_devices-Pins value {devices} h =
    let (items, e₁, h₁) = split (device_items value) _ h in
    let (ds, e₂, h₂) = split (each_device [] items) _ h₁ in
    let (u, e₃, h₃) = split (check_list ds) _ h₂ in
    let same : ds ≡ devices = ground arith in subst PinsHold same (check_list_lem ds e₃)
