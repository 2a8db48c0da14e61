-- ===== src/Config/Sensor/Ds18b20.antt =====
-- devices/ds18b20/validation.py
use Prim.Native.Char.{code}
use Prim.Native.String.{String, count}
use pico_dualcore.Prelude.{ℕ, Bool, true, false, ◌&&◌, ◌||◌, List, [], ◌∷◌, leb, ◌==◌}
use pico_dualcore.Value.{Value, str_value, int_value}
use pico_dualcore.Config.Check.{
  Check, ◌>>=◌, ◌>>◌, Passed, require, get, get_or, required, as_object, require_allowed,
  int_between,
}
use pico_dualcore.Config.Pins.{validate_user_gpio_pin}
use pico_dualcore.Config.Sensor.{check_offsets}

abbrev pub allowed_config_keys : List String
allowed_config_keys = "pin" ∷ "rom" ∷ "conversion_ms" ∷ "offsets" ∷ []

abbrev offset_bounds : List (String × ℕ)
offset_bounds = ("temperature_c", 100) ∷ []

-- The code points of a text.
pub codes : String → List ℕ
codes String.[] = []
codes (String.◌∷◌ c s) = code c ∷ codes s

is_hex : ℕ → Bool
is_hex c = (leb 48 c && leb c 57) || ((leb 97 c && leb c 102) || (leb 65 c && leb c 70))

all_hex : List ℕ → Bool
unfolding is_hex
all_hex [] = true
all_hex (c ∷ cs) = is_hex c && all_hex cs

-- "28", which lower() leaves as it is, and to which it takes nothing else.
is_family : List ℕ → Bool
is_family (a ∷ (b ∷ cs)) = a == 50 && b == 56
is_family _ = false

is_rom : Value → Bool
unfolding codes all_hex is_family
is_rom (str_value s) = count s == 16 && (all_hex (codes s) && is_family (codes s))
is_rom _ = false

unfoldable pub validate_ds18b20 : Value → Check Passed
unfolding is_rom
validate_ds18b20 value = do
  config ← as_object value
  require_allowed allowed_config_keys config
  pin ← required "pin" config
  validate_user_gpio_pin pin
  rom ← required "rom" config
  require (is_rom rom)
  require (int_between 750 1000 (get_or (int_value 750) "conversion_ms" config))
  check_offsets offset_bounds (get "offsets" config)
