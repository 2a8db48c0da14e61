-- ===== src/CommandProtocol.antt =====
-- command_protocol.py: the commands, which core owns them, which may be broadcast, and the bounds of
-- what a command carries.
pub mod Names
use Prim.Native.Nat.{Ordering}
use Prim.Native.String.{count, compare}
use text.Mathlib.Text.{◌==◌ as str_eq}
use pico_dualcore.Prelude.{
  ℕ, Bool, true, false, ◌&&◌, ◌||◌, String, List, [], ◌∷◌, ◌++◌, ◌≡◌, arith, leb, if◌then◌else◌,
}
use pico_dualcore.Value.{Value, Fields, end, field, str_value}

unfoldable pub member : String → List String → Bool
member s [] = false
member s (x ∷ xs) = str_eq x s || member s xs

abbrev pub core0_owned_commands : List String
core0_owned_commands = "reboot" ∷ "read-config" ∷ "write-config" ∷ []

abbrev pub core1_owned_commands : List String
core1_owned_commands = "get-details" ∷ []

abbrev pub supported_commands : List String
supported_commands = core0_owned_commands ++ core1_owned_commands

abbrev pub broadcast_excluded_commands : List String
broadcast_excluded_commands = "write-config" ∷ []

unfoldable pub is_supported_command : String → Bool
unfolding member
is_supported_command command = member command supported_commands

pub is_core0_owned : String → Bool
unfolding member
is_core0_owned command = member command core0_owned_commands

pub is_core1_owned : String → Bool
unfolding member
is_core1_owned command = member command core1_owned_commands

abbrev pub max_command_id_length : ℕ
max_command_id_length = 128

abbrev pub max_command_length : ℕ
max_command_length = 32

abbrev pub max_target_length : ℕ
max_target_length = 128

abbrev pub broadcast_target : String
broadcast_target = "*"

abbrev pub command_envelope_keys : List String
command_envelope_keys =
    "message_type" ∷ "message_schema_version" ∷ "target" ∷ "command_id" ∷ "command" ∷ "payload" ∷ []

-- isinstance(value, str) and 0 < len(value) <= bound
abbrev pub bounded_text : ℕ → Value → Bool
bounded_text bound (str_value s) = leb 1 (count s) && leb (count s) bound
bounded_text bound _ = false

unfoldable pub is_bounded_command_id : Value → Bool
is_bounded_command_id v = bounded_text max_command_id_length v

unfoldable pub is_bounded_command : Value → Bool
is_bounded_command v = bounded_text max_command_length v

unfoldable pub is_bounded_target : Value → Bool
is_bounded_target v = bounded_text max_target_length v

-- A text into a sorted list, before those that are equal.
unfoldable pub insert_sorted : String → List String → List String
insert_sorted s [] = s ∷ []
insert_sorted s (t ∷ ts) =
    let later = t ∷ insert_sorted s ts in
    elim (compare s t) [ Ordering.lt ↦ s ∷ t ∷ ts | Ordering.eq ↦ s ∷ t ∷ ts | Ordering.gt ↦ later ]

-- sorted(key for key in keys if key not in allowed); the keys of a JSON object are texts.
unfoldable pub unknown_field_names : List String → Fields → List String
unfolding member insert_sorted
unknown_field_names allowed end = []
unknown_field_names allowed (field (str_value k) v fs) =
    let rest = unknown_field_names allowed fs in
    if member k allowed then rest else insert_sorted k rest
unknown_field_names allowed (field key v fs) = unknown_field_names allowed fs

-- A command is supported exactly if one of the cores owns it.
pub is_supported_command_lem :
    (command : String)
    → is_supported_command command ≡ (is_core0_owned command || is_core1_owned command)
unfolding is_supported_command is_core0_owned is_core1_owned member
is_supported_command_lem command = ground arith
