-- ===== src/Config/Unknown.antt =====
-- _unknown_config_paths of config.py: the unknown fields of a configuration, sorted, each once.
use Prim.Native.Nat.{Ordering}
use Prim.Native.String as Text
use Prim.Native.String.{String, compare}
use pico_dualcore.Prelude.{
  ℕ, zero, suc, ◌/◌, ◌%◌, Option, none, some, List, [], ◌∷◌, ◌++◌, if◌then◌else◌, ltb,
}
use pico_dualcore.Value.{
  Value, Items, nil, cons, Fields, end, field, str_value, list_value, dict_value,
}
use pico_dualcore.Config.Check.{Check, accepted, ◌>>=◌, text_member, get, is_empty}
use pico_dualcore.Config.Definition.{allowed_keys_of_type, device_definition_keys}

infixr 65 ◌<>◌
abbrev ◌<>◌ : String → String → String
◌<>◌ s t = Text.◌++◌ s t

abbrev pub digit : ℕ → String
digit zero = "0"
digit (suc zero) = "1"
digit (suc (suc zero)) = "2"
digit (suc (suc (suc zero))) = "3"
digit (suc (suc (suc (suc zero)))) = "4"
digit (suc (suc (suc (suc (suc zero))))) = "5"
digit (suc (suc (suc (suc (suc (suc zero)))))) = "6"
digit (suc (suc (suc (suc (suc (suc (suc zero))))))) = "7"
digit (suc (suc (suc (suc (suc (suc (suc (suc zero)))))))) = "8"
digit (suc (suc (suc (suc (suc (suc (suc (suc (suc n))))))))) = "9"

-- str(n); one round for each digit, of which n has at most n + 1.
decimal_from : ℕ → ℕ → String
decimal_from zero n = ""
decimal_from (suc fuel) n =
    let high = decimal_from fuel (n / 10) in if ltb n 10 then digit n else high <> digit (n % 10)

unfoldable pub decimal : ℕ → String
unfolding decimal_from
decimal n = decimal_from (suc n) n

-- A text into a list that is sorted, unless it is there.
unfoldable pub insert_text : String → List String → List String
insert_text s [] = s ∷ []
insert_text s (t ∷ ts) = elim (compare s t) [
  | Ordering.lt ↦ s ∷ t ∷ ts
  | Ordering.eq ↦ t ∷ ts
  | Ordering.gt ↦ t ∷ insert_text s ts
]

-- sorted(set(...))
unfoldable pub sorted_set : List String → List String
unfolding insert_text
sorted_set [] = []
sorted_set (s ∷ ss) = insert_text s (sorted_set ss)

-- set(fields.keys()) - allowed, each with a prefix; all the keys are texts.
unfoldable pub unknown_keys : String → List String → Fields → List String
unknown_keys prefix allowed end = []
unknown_keys prefix allowed (field (str_value k) v fs) =
    let rest = unknown_keys prefix allowed fs in
    if text_member k allowed then rest else (prefix <> k) ∷ rest
unknown_keys prefix allowed (field key v fs) = unknown_keys prefix allowed fs

qualifier : ℕ → Value → String
unfolding decimal
qualifier index (str_value s) = if is_empty s then decimal index else s
qualifier index v = decimal index

allowed_unknown : String → Option (List String) → Fields → List String
unfolding unknown_keys
allowed_unknown prefix none config = []
allowed_unknown prefix (some allowed) config = unknown_keys prefix allowed config

-- The unknown keys of the config object of a device, by its type.
config_unknown : String → Value → Value → Check (List String)
unfolding allowed_unknown
config_unknown name device_type (dict_value config) = do
  allowed ← allowed_keys_of_type device_type
  accepted (allowed_unknown ("devices[" <> name <> "].config.") allowed config)
config_unknown name device_type v = accepted []

device_unknown : ℕ → Value → Check (List String)
unfolding qualifier unknown_keys config_unknown
device_unknown index (dict_value device) = do
  let name = qualifier index (get "id" device)
  deep ← config_unknown name (get "device_type" device) (get "config" device)
  accepted (unknown_keys ("devices[" <> name <> "].") device_definition_keys device ++ deep)
device_unknown index v = accepted []

devices_unknown : ℕ → Items → Check (List String)
unfolding device_unknown
devices_unknown index nil = accepted []
devices_unknown index (cons v vs) = do
  here ← device_unknown index v
  rest ← devices_unknown (suc index) vs
  accepted (here ++ rest)

pub list_unknown : Value → Check (List String)
unfolding devices_unknown
list_unknown (list_value vs) = devices_unknown 0 vs
list_unknown v = accepted []

unfoldable pub unknown_config_paths : List String → Fields → Check (List String)
unfolding unknown_keys list_unknown sorted_set
unknown_config_paths allowed config = do
  deep ← list_unknown (get "devices" config)
  accepted (sorted_set (unknown_keys "" allowed config ++ deep))
