-- ===== src/Value.antt =====
-- Python values, as far as the code looks at them. What is of none of the types is opaque.
use pico_dualcore.Prelude.{ℕ, Bool, true, false, String, List}

mutual
  pub data Value : Type 0 where
    none_value : Value
    bool_value : Bool → Value
    -- An integer that is not negative, and -(n + 1).
    int_value : ℕ → Value
    neg_value : ℕ → Value
    -- A finite binary float: n / 2 ^ k, negative if the first argument is true.
    finite_float : Bool → ℕ → ℕ → Value
    nan_float infinite_float : Value
    str_value : String → Value
    list_value : Items → Value
    tuple_value : Items → Value
    dict_value : Fields → Value
    bytes_value : List ℕ → Value
    opaque_value : Value

  pub data Items : Type 0 where
    nil : Items
    cons : Value → Items → Items

  -- The items of a dictionary, in order; a key may be any value.
  pub data Fields : Type 0 where
    end : Fields
    field : Value → Value → Fields → Fields

abbrev pub is_dict : Value → Bool
is_dict (dict_value fs) = true
is_dict _ = false

abbrev pub is_str : Value → Bool
is_str (str_value s) = true
is_str _ = false

-- isinstance(value, int) and not isinstance(value, bool)
abbrev pub is_int : Value → Bool
is_int (int_value n) = true
is_int (neg_value n) = true
is_int _ = false
