-- ===== src/Message/Time.antt =====
-- format_utc_epoch_ms of message_protocol.py. time.gmtime is a parameter, `none` where it raises.
use Prim.Native.String as Text
use pico_dualcore.Prelude.{
  ℕ, zero, suc, ◌/◌, ◌%◌, ◌^◌, ltb, if◌then◌else◌, String, Option, none, some,
}
use pico_dualcore.Prelude.Int.{ℤ, floor_1000}
use pico_dualcore.Config.Unknown.{digit, decimal}

-- The first six items of what time.gmtime returns.
pub record CivilTime : Type 0 where
  pub year : ℕ
  pub month : ℕ
  pub mday : ℕ
  pub hour : ℕ
  pub minute : ℕ
  pub second : ℕ

infixr 65 ◌<>◌
abbrev ◌<>◌ : String → String → String
◌<>◌ s t = Text.◌++◌ s t

-- The last w digits.
unfoldable pub last_digits : ℕ → ℕ → String
last_digits zero n = ""
last_digits (suc w) n = last_digits w (n / 10) <> digit (n % 10)

-- {:0wd}
unfoldable pub padded : ℕ → ℕ → String
unfolding last_digits
padded w n = if ltb n (10 ^ w) then last_digits w n else decimal n

unfoldable pub format_utc_epoch_ms : (ℤ → Option CivilTime) → ℤ → Option String
unfolding padded
format_utc_epoch_ms gmtime epoch_ms = elim (gmtime (floor_1000 epoch_ms)) [
  | none ↦ none
  | some tm ↦ some (
      padded 4 tm.year
      <> "-"
      <> padded 2 tm.month
      <> "-"
      <> padded 2 tm.mday
      <> "T"
      <> padded 2 tm.hour
      <> ":"
      <> padded 2 tm.minute
      <> ":"
      <> padded 2 tm.second
      <> "Z")
]
