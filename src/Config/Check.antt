-- ===== src/Config/Check.antt =====
-- Checks that accept a value or raise, and what they read of an object.
pub mod Laws
use text.Mathlib.Text.{◌==◌ as str_eq}
use pico_dualcore.Prelude.{
  ℕ, zero, suc, ◌+◌, ◌*◌, ◌^◌, Bool, true, false, not, ◌&&◌, ◌||◌, String, Option, none, some, List,
  [], ◌∷◌, if◌then◌else◌, leb, ltb, ◌==◌,
}
use pico_dualcore.Value.{
  Value, Fields, end, field, none_value, bool_value, int_value, neg_value, finite_float, str_value,
  dict_value,
}
use pico_dualcore.Storage.{Code, missing_key, invalid_value, unknown_config_fields}

-- `refused` is the ConfigError, or the DeviceValidationError, with its code and the unknown fields
-- that it names; `foreign` is any other exception, a TypeError or a KeyError.
pub data Check {ℓ} (A : Type ℓ) : Type ℓ where
  accepted : A → Check A
  refused : Code → List String → Check A
  foreign : Check A

infixl 5 ◌>>=◌ ◌>>◌
abbrev pub ◌>>=◌ {ℓ κ} : {A : Type ℓ} {B : Type κ} → Check A → (A → Check B) → Check B
accepted a >>= f = f a
refused c unknown >>= f = refused c unknown
foreign >>= f = foreign

abbrev pub ◌>>◌ {ℓ κ} : {A : Type ℓ} {B : Type κ} → Check A → Check B → Check B
m >> k = m >>= λ _. k

abbrev pub Passed : Type 0
Passed = Unit {0}

abbrev pub pass : Check Passed
pass = accepted tt

abbrev pub invalid {ℓ} : {A : Type ℓ} → Check A
invalid = refused invalid_value []

abbrev pub require : Bool → Check Passed
require true = pass
require false = invalid

abbrev pub member : ℕ → List ℕ → Bool
member n [] = false
member n (m ∷ ms) = m == n || member n ms

unfoldable pub text_member : String → List String → Bool
text_member s [] = false
text_member s (t ∷ ts) = str_eq t s || text_member s ts

-- key == k, for a key of an object.
unfoldable pub is_key : String → Value → Bool
is_key k (str_value s) = str_eq s k
is_key k _ = false

-- config.get(key), with `none` for a key that is not there.
unfoldable pub lookup : String → Fields → Option Value
unfolding is_key
lookup k end = none
lookup k (field key v fs) = if is_key k key then some v else lookup k fs

abbrev pub or_default : Value → Option Value → Value
or_default v none = v
or_default v (some w) = w

-- config.get(key, default)
unfoldable pub get_or : Value → String → Fields → Value
get_or v k fs = or_default v (lookup k fs)

-- config.get(key)
unfoldable pub get : String → Fields → Value
unfolding get_or
get = get_or none_value

abbrev pub present : Option Value → Bool
present none = false
present (some v) = true

-- key in config
unfoldable pub has_key : String → Fields → Bool
has_key k fs = present (lookup k fs)

abbrev pub or_foreign : Option Value → Check Value
or_foreign none = foreign
or_foreign (some v) = accepted v

-- config[key]
unfoldable pub item : String → Fields → Check Value
item k fs = or_foreign (lookup k fs)

abbrev or_missing : Option Value → Check Value
or_missing none = refused missing_key []
or_missing (some v) = accepted v

-- The test for a required key and the access to it.
unfoldable pub required : String → Fields → Check Value
required k fs = or_missing (lookup k fs)

abbrev pub as_object : Value → Check Fields
as_object (dict_value fs) = accepted fs
as_object _ = invalid

-- Each key of the object is an allowed one.
unfoldable pub only_allowed : List String → Fields → Bool
unfolding text_member
only_allowed allowed end = true
only_allowed allowed (field (str_value k) v fs) = text_member k allowed && only_allowed allowed fs
only_allowed allowed (field key v fs) = false

unfoldable pub require_allowed : List String → Fields → Check Passed
require_allowed allowed fs =
    if only_allowed allowed fs then pass else refused unknown_config_fields []

abbrev pub int_between : ℕ → ℕ → Value → Bool
int_between lo hi (int_value n) = leb lo n && leb n hi
int_between lo hi _ = false

abbrev pub int_among : List ℕ → Value → Bool
int_among ms (int_value n) = member n ms
int_among ms _ = false

abbrev pub is_zero : Value → Bool
is_zero (int_value zero) = true
is_zero _ = false

-- _is_finite_number
abbrev pub is_finite_number : Value → Bool
is_finite_number (int_value n) = true
is_finite_number (neg_value n) = true
is_finite_number (finite_float negative n k) = true
is_finite_number _ = false

-- lo <= v <= hi for a finite number, with 0 < lo.
abbrev pub number_between : ℕ → ℕ → Value → Bool
number_between lo hi (int_value n) = leb lo n && leb n hi
number_between lo hi (finite_float false n k) = leb (lo * 2 ^ k) n && leb n (hi * 2 ^ k)
number_between lo hi _ = false

-- abs(v) <= bound for a finite number.
abbrev pub magnitude_within : ℕ → Value → Bool
magnitude_within bound (int_value n) = leb n bound
magnitude_within bound (neg_value n) = ltb n bound
magnitude_within bound (finite_float negative n k) = leb n (bound * 2 ^ k)
magnitude_within bound _ = false

abbrev pub is_empty : String → Bool
is_empty s = str_eq s ""
