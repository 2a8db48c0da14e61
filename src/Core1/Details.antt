-- ===== src/Core1/Details.antt =====
-- core1.py: the sections of the system information that a get-details command is answered with. What a
-- getter of SystemInformation comes to is given by its name.
mod Tests
use pico_dualcore.Prelude.{
  Bool, true, false, String, Option, none, some, List, [], ◌∷◌, ◌≡◌, refl, ap, if◌then◌else◌, subst,
  sym, arith,
}
use pico_dualcore.Value.{Value, Fields, end, field, str_value, dict_value}
use pico_dualcore.Config.Check.{lookup}
use pico_dualcore.Message.{is_json_safe, fields_safe}
use pico_dualcore.Core0.Basics.{object}
use pico_dualcore.Core1.State.{memory_error, Result, ok, raise}

-- What a getter returns, the text of its exception, or a MemoryError.
pub data Gathered (A : Type 0) : Type 0 where
  gathered : A → Gathered A
  failed : String → Gathered A
  exhausted : Gathered A

abbrev pub system_information_sections : List String
system_information_sections =
    "network" ∷ "memory" ∷ "runtime" ∷ "devices" ∷ "cpu" ∷ "machine" ∷ "communications" ∷ "queues"
    ∷ "device_status" ∷ []

abbrev pub error_section : String → Value
error_section error = dict_value (object (("error", str_value error) ∷ []))

-- The two sections of the devices, from one snapshot; none if there is no get_device_sections.
abbrev pub device_sections_of : Option (Gathered Fields) → Result (Option Fields)
device_sections_of none = ok none
device_sections_of (some (gathered fs)) = ok (some fs)
device_sections_of (some (failed error)) =
    ok (
      some
        (object (("devices", error_section error) ∷ ("device_status", error_section error) ∷ [])))
device_sections_of (some exhausted) = raise memory_error

-- A section that is not JSON-safe is left out.
abbrev pub if_safe : Value → Result (Option Value)
if_safe v = ok (if is_json_safe v then some v else none)

abbrev pub from_getter : Option (Gathered Value) → Result (Option Value)
from_getter none = ok none
from_getter (some (gathered v)) = if_safe v
from_getter (some (failed error)) = ok (some (error_section error))
from_getter (some exhausted) = raise memory_error

abbrev pub from_sections : Option Value → Option (Gathered Value) → Result (Option Value)
from_sections (some v) getter = if_safe v
from_sections none getter = from_getter getter

abbrev pub in_sections : String → Option Fields → Option Value
in_sections section none = none
in_sections section (some fs) = lookup section fs

-- The section before what the later ones come to; an exception of it comes first.
abbrev pub with_section : String → Result (Option Value) → Result Fields → Result Fields
with_section section (raise e) rest = raise e
with_section section (ok none) rest = rest
with_section section (ok (some v)) (raise e) = raise e
with_section section (ok (some v)) (ok fs) = ok (field (str_value section) v fs)

module _ (getter : String → Option (Gathered Value)) where
  unfoldable pub collect_sections : Option Fields → List String → Result Fields
  collect_sections devices [] = ok end
  collect_sections devices (section ∷ sections) =
      with_section section (from_sections (in_sections section devices) (getter section))
        (collect_sections devices sections)

  abbrev pub collected : Result Fields → Result Value
  collected (ok fs) = ok (dict_value fs)
  collected (raise e) = raise e

  abbrev pub by_devices : Result (Option Fields) → Result Value
  by_devices (raise e) = raise e
  by_devices (ok devices) = collected (collect_sections devices system_information_sections)

  unfoldable pub collect_system_information_full : Option (Gathered Fields) → Result Value
  unfolding collect_sections
  collect_system_information_full devices = by_devices (device_sections_of devices)

  abbrev Safe : Result Fields → Type 0
  Safe (ok fs) = fields_safe fs ≡ true
  Safe (raise e) = Unit

  abbrev SafeSection : Result (Option Value) → Type 0
  SafeSection (ok (some v)) = is_json_safe v ≡ true
  SafeSection r = Unit

  if_safe-Safe : (v : Value) → SafeSection (if_safe v)
  if_safe-Safe v = go (is_json_safe v) refl
    where
      go : (b : Bool) → is_json_safe v ≡ b → SafeSection (ok (if b then some v else none))
      go true e = e
      go false e = tt

  section-Safe : (o : Option Value) (g : Option (Gathered Value)) → SafeSection (from_sections o g)
  unfolding is_json_safe fields_safe
  section-Safe (some v) g = if_safe-Safe v
  section-Safe none none = tt
  section-Safe none (some (gathered v)) = if_safe-Safe v
  section-Safe none (some (failed e)) = refl
  section-Safe none (some exhausted) = tt

  with_section-Safe :
      (s : String) (r : Result (Option Value)) (rest : Result Fields)
      → SafeSection r
      → Safe rest
      → Safe (with_section s r rest)
  unfolding fields_safe
  with_section-Safe s (raise e) rest safe h = tt
  with_section-Safe s (ok none) rest safe h = h
  with_section-Safe s (ok (some v)) (raise e) safe h = tt
  with_section-Safe s (ok (some v)) (ok fs) safe h = ground arith

  collect_sections-Safe :
      (devices : Option Fields) (sections : List String) → Safe (collect_sections devices sections)
  unfolding collect_sections fields_safe
  collect_sections-Safe devices [] = refl
  collect_sections-Safe devices (s ∷ ss) =
      with_section-Safe s _ (collect_sections devices ss)
        (section-Safe (in_sections s devices) (getter s)) (collect_sections-Safe devices ss)

-- Whatever the getters return or raise, the details that are collected can be written as JSON.
pub collect_system_information_full-is_json_safe :
    (getter : String → Option (Gathered Value)) (devices : Option (Gathered Fields)) (v : Value)
    → collect_system_information_full getter devices ≡ ok v
    → is_json_safe v ≡ true
unfolding collect_system_information_full is_json_safe
collect_system_information_full-is_json_safe getter devices v h =
    subst SafeValue h (by_devices-Safe (device_sections_of devices))
  where
    SafeValue : Result Value → Type 0
    SafeValue (ok u) = is_json_safe u ≡ true
    SafeValue (raise e) = Unit

    collected-Safe : (r : Result Fields) → Safe getter r → SafeValue (collected getter r)
    collected-Safe (ok fs) safe = safe
    collected-Safe (raise e) safe = tt

    by_devices-Safe : (r : Result (Option Fields)) → SafeValue (by_devices getter r)
    by_devices-Safe (raise e) = tt
    by_devices-Safe (ok fs) =
        collected-Safe (collect_sections getter fs system_information_sections)
          (collect_sections-Safe getter fs system_information_sections)
