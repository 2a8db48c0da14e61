-- ===== src/Core0/Basics.antt =====
-- core0.py: the small operations: the clock, the match of a target, the queue of the responses, the
-- cache of the command ids, and the error responses.
use text.Mathlib.Text.{◌==◌ as str_eq}
use pico_dualcore.Prelude.{
  ℕ, suc, Bool, true, false, ◌&&◌, ◌||◌, String, Option, none, some, List, [], ◌∷◌, ◌++◌,
  if◌then◌else◌, ltb, leb, length,
}
use pico_dualcore.Prelude.Int.{ℤ, pos, negsuc, plus}
use pico_dualcore.Value.{
  Value, Items, nil, cons, Fields, end, field, none_value, int_value, neg_value, str_value,
  dict_value,
}
use pico_dualcore.Uptime.{current_uptime_ms}
use pico_dualcore.Message.Time.{format_utc_epoch_ms}
use pico_dualcore.CommandProtocol.{member, is_bounded_command, is_bounded_target, broadcast_target}
use pico_dualcore.Core0.World.{World}
use pico_dualcore.Core0.State.{
  max_pending_core0_responses, recent_command_id_capacity, unstamped, Response, UtcSnapshot, Core0,
  escape, Result, ok, raise,
}

-- A JSON object.
abbrev pub object : List (String × Value) → Fields
object [] = end
object ((k, v) ∷ kvs) = field (str_value k) v (object kvs)

abbrev pub texts : List String → Items
texts [] = nil
texts (s ∷ ss) = cons (str_value s) (texts ss)

abbrev pub int_of : ℤ → Value
int_of (pos n) = int_value n
int_of (negsuc n) = neg_value n

abbrev pub text_or_none : Option String → Value
text_or_none none = none_value
text_or_none (some s) = str_value s

-- The clock, read once.
unfoldable pub now : World → Core0 → ℕ × Core0
now w c = (w.ticks_ms c.moment, record c { moment = suc c.moment })

unfoldable pub uptime_ms : World → Core0 → ℕ × Core0
unfolding now current_uptime_ms
uptime_ms w c =
    let (t, c') = now w c in
    let (u, s) = current_uptime_ms w.elapsed t c'.uptime_state in
    (u, record c' { uptime_state = s })

abbrev pub or_raise : Option String → Core0 → Result Value × Core0
or_raise none c = (raise escape, c)
or_raise (some text) c = (ok (str_value text), c)

-- The time of this moment, by a snapshot.
abbrev pub timestamp_by : World → Option UtcSnapshot → Core0 → Result Value × Core0
timestamp_by w none c = (ok none_value, c)
timestamp_by w (some s) c =
    let (u, c') = uptime_ms w c in
    or_raise (format_utc_epoch_ms w.gmtime (plus s.runtime_start_epoch_ms u)) c'

-- _current_utc_timestamp: None without a snapshot.
unfoldable pub current_utc_timestamp : World → Core0 → Result Value × Core0
unfolding uptime_ms
current_utc_timestamp w c = timestamp_by w c.utc_snapshot c

abbrev pub own_address : World → String → Value → Bool
own_address w target (str_value ip) = str_eq (w.lower target) (w.lower ip)
own_address w target _ = false

-- _target_matches, with the address that the radio has.
unfoldable pub target_matches : World → Value → Value → Bool
target_matches w address (str_value target) =
    is_bounded_target (str_value target)
    && (str_eq target broadcast_target
        || (str_eq (w.lower target) (w.lower w.config.source) || own_address w target address))
target_matches w address v = false

-- False, and nothing queued, if the queue is full.
unfoldable pub queue_core0_response : Response → Core0 → Bool × Core0
queue_core0_response r c =
    if leb max_pending_core0_responses (length c.pending_core0_responses)
    then (false, c)
    else (true, record c { pending_core0_responses = c.pending_core0_responses ++ r ∷ [] })

unfoldable pub is_recent_command_id : String → Core0 → Bool
is_recent_command_id command_id c = member command_id c.recent_command_ids

abbrev pub without_first : List String → List String
without_first [] = []
without_first (s ∷ ss) = ss

-- The newest last, the oldest dropped over the capacity.
unfoldable pub remember : String → List String → List String
remember s ss =
    let grown = ss ++ s ∷ [] in
    if ltb recent_command_id_capacity (length grown) then without_first grown else grown

unfoldable pub remember_command_id : String → Core0 → Core0
unfolding remember
remember_command_id command_id c = record c {
  recent_command_ids = remember command_id c.recent_command_ids;
}

abbrev pub bounded_name : Value → Option String
bounded_name (str_value s) = if is_bounded_command (str_value s) then some s else none
bounded_name _ = none

-- The error that a response carries.
abbrev pub error_of : String → String → List (String × Value) → Value
error_of code message more =
    dict_value (object (("code", str_value code) ∷ ("message", str_value message) ∷ more))

-- _command_error: a name that is too long is not echoed.
unfoldable pub command_error : String → Bool → Value → Value → Response
command_error command_id targeted command error = record {
  command_id = command_id;
  command = bounded_name command;
  success = false;
  targeted = targeted;
  result = error;
  clears_pending_reboot = false;
  stamps = unstamped;
}
