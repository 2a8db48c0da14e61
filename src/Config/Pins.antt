-- ===== src/Config/Pins.antt =====
-- devices/rp2_pins.py and devices/rp2_i2c.py: the pins of the board and the routing of its two I2C
-- controllers.
use pico_dualcore.Prelude.{ℕ, zero, suc, Bool, true, false, not, List, [], ◌∷◌, if◌then◌else◌, ◌==◌}
use pico_dualcore.Value.{Value, none_value, int_value}
use pico_dualcore.Config.Check.{Check, ◌>>◌, Passed, pass, invalid, require, member}

-- GP0-GP22 and GP26-GP28
abbrev pub user_gpio_pins : List ℕ
user_gpio_pins =
    0 ∷ 1 ∷ 2 ∷ 3 ∷ 4 ∷ 5 ∷ 6 ∷ 7 ∷ 8 ∷ 9 ∷ 10 ∷ 11 ∷ 12 ∷ 13 ∷ 14 ∷ 15 ∷ 16 ∷ 17 ∷ 18 ∷ 19 ∷ 20
    ∷ 21 ∷ 22 ∷ 26 ∷ 27 ∷ 28 ∷ []

abbrev pub wireless_reserved_pins : List ℕ
wireless_reserved_pins = 23 ∷ 24 ∷ 25 ∷ 29 ∷ []

-- An integer that is negative is in neither list.
unfoldable pub validate_user_gpio_pin : Value → Check Passed
validate_user_gpio_pin (int_value n) =
    if member n wireless_reserved_pins then invalid else require (member n user_gpio_pins)
validate_user_gpio_pin _ = invalid

abbrev pub exposed : List ℕ → List ℕ
exposed [] = []
exposed (n ∷ ns) = if member n user_gpio_pins then n ∷ exposed ns else exposed ns

-- By the bus, 0 or 1.
abbrev pub i2c_sda_mux : ℕ → List ℕ
i2c_sda_mux zero = 0 ∷ 4 ∷ 8 ∷ 12 ∷ 16 ∷ 20 ∷ 24 ∷ 28 ∷ []
i2c_sda_mux (suc n) = 2 ∷ 6 ∷ 10 ∷ 14 ∷ 18 ∷ 22 ∷ 26 ∷ []

abbrev pub i2c_scl_mux : ℕ → List ℕ
i2c_scl_mux zero = 1 ∷ 5 ∷ 9 ∷ 13 ∷ 17 ∷ 21 ∷ 25 ∷ 29 ∷ []
i2c_scl_mux (suc n) = 3 ∷ 7 ∷ 11 ∷ 15 ∷ 19 ∷ 23 ∷ 27 ∷ []

abbrev pub i2c_sda_pins : ℕ → List ℕ
i2c_sda_pins bus = exposed (i2c_sda_mux bus)

abbrev pub i2c_scl_pins : ℕ → List ℕ
i2c_scl_pins bus = exposed (i2c_scl_mux bus)

abbrev pub default_sda : ℕ → ℕ
default_sda zero = 4
default_sda (suc n) = 6

abbrev pub default_scl : ℕ → ℕ
default_scl zero = 5
default_scl (suc n) = 7

-- A pin that is omitted is None; the rest are integers by now.
abbrev pub pin_or : Value → ℕ → ℕ
pin_or (int_value n) default = n
pin_or _ default = default

unfoldable pub effective_rp2_i2c_pins : ℕ → Value → Value → ℕ × ℕ
effective_rp2_i2c_pins bus sda scl = (pin_or sda (default_sda bus), pin_or scl (default_scl bus))

optional_pin : Value → Check Passed
unfolding validate_user_gpio_pin
optional_pin none_value = pass
optional_pin v = validate_user_gpio_pin v

abbrev same_pin : Value → Value → Bool
same_pin (int_value n) (int_value m) = n == m
same_pin _ _ = false

abbrev in_group : List ℕ → Value → Bool
in_group pins none_value = true
in_group pins (int_value n) = member n pins
in_group pins _ = false

unfoldable pub validate_rp2_i2c_pins : ℕ → Value → Value → Check Passed
unfolding optional_pin
validate_rp2_i2c_pins bus sda scl = do
  optional_pin sda
  optional_pin scl
  require (not (same_pin sda scl))
  require (in_group (i2c_sda_pins bus) sda)
  require (in_group (i2c_scl_pins bus) scl)
