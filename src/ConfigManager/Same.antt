-- ===== src/ConfigManager/Same.antt =====
-- The equality of Python on the values that json.load gives, whose objects have texts as keys.
use text.Mathlib.Text.{◌==◌ as str_eq}
use pico_dualcore.Prelude.{
  ℕ, zero, suc, ◌*◌, ◌^◌, Bool, true, false, not, ◌&&◌, Option, none, some, ◌==◌,
}
use pico_dualcore.Value.{
  Value, Items, nil, cons, Fields, end, field, none_value, bool_value, int_value, neg_value,
  finite_float, str_value, list_value, dict_value,
}
use pico_dualcore.Config.Check.{has_key, get}

-- The sign, the numerator and the binary exponent of the denominator; True is 1.
abbrev number_of : Value → Option (Bool × ℕ × ℕ)
number_of (bool_value true) = some (false, 1, 0)
number_of (bool_value false) = some (false, 0, 0)
number_of (int_value n) = some (false, n, 0)
number_of (neg_value n) = some (true, suc n, 0)
number_of (finite_float negative n k) = some (negative, n, k)
number_of v = none

abbrev same_sign : Bool → Bool → ℕ → Bool
same_sign a b zero = true
same_sign true b (suc n) = b
same_sign false b (suc n) = not b

-- Zero has no sign.
abbrev equal_number : Option (Bool × ℕ × ℕ) → Option (Bool × ℕ × ℕ) → Bool
equal_number (some (a, n, k)) (some (b, m, l)) = n * 2 ^ l == m * 2 ^ k && same_sign a b n
equal_number o o' = false

abbrev count_fields : Fields → ℕ
count_fields end = 0
count_fields (field k v fs) = suc (count_fields fs)

unfoldable mutual
  pub same : Value → Value → Bool
  same none_value none_value = true
  same (str_value s) (str_value t) = str_eq s t
  same (list_value xs) (list_value ys) = same_items xs ys
  same (dict_value fs) (dict_value gs) = count_fields fs == count_fields gs && same_fields fs gs
  same v w = equal_number (number_of v) (number_of w)

  same_items : Items → Items → Bool
  same_items nil nil = true
  same_items (cons v vs) (cons w ws) = same v w && same_items vs ws
  same_items xs ys = false

  same_fields : Fields → Fields → Bool
  same_fields end gs = true
  same_fields (field (str_value k) v fs) gs =
      (has_key k gs && same v (get k gs)) && same_fields fs gs
  same_fields (field k v fs) gs = false
