-- ===== src/Core1/State.antt =====
-- core1.py: the state that the two cores share, as Core 1 uses it, with its own uptime, and the steps on
-- it, which end or raise.
use pico_dualcore.Prelude.{ℕ, suc, Bool, String, Option, none, some}
use pico_dualcore.Prelude.Int.{ℤ, pos, negsuc, plus}
use pico_dualcore.Value.{Value, none_value, int_value, neg_value, str_value, dict_value}
use pico_dualcore.Config.Check.{lookup}
use pico_dualcore.Uptime.{UptimeState, current_uptime_ms}
use pico_dualcore.Message.{Dumped}
use pico_dualcore.Message.Time.{CivilTime, format_utc_epoch_ms}
use pico_dualcore.Intercore.Container.{InterCore}
use pico_dualcore.Intercore.Outbound.Serialize as Lane
use pico_dualcore.Intercore.Outbound.Serialize.{
  PutMessage, put_result, put_invalid, put_too_large, put_out_of_memory, no_end,
}

-- What is outside: the tick counter and the memory by the number of the reading, json.dumps by the number
-- of the attempt. `elapsed` is ticks_diff of two samples of which the first is the later.
pub record World : Type 0 where
  pub ticks_ms : ℕ → ℕ
  pub elapsed : ℕ → ℕ → ℕ
  pub gmtime : ℤ → Option CivilTime
  pub free : ℕ → ℕ
  pub json_dumps : ℕ → Value → Dumped

pub record Core1 : Type 0 where
  pub intercore : InterCore
  pub uptime_state : UptimeState
  pub moment : ℕ

-- An OutboundMessageTooLargeError, another ValueError, a MemoryError, or any other exception.
pub data Exn : Type 0 where
  too_large value_error memory_error escape : Exn

pub data Result (A : Type 0) : Type 0 where
  ok : A → Result A
  raise : Exn → Result A

abbrev pub Act : Type 0 → Type 0
Act A = Core1 → Result A × Core1

abbrev pub pure : {A : Type 0} → A → Act A
pure a c = (ok a, c)

abbrev pub throw : {A : Type 0} → Exn → Act A
throw e c = (raise e, c)

abbrev pub go_on : {A B : Type 0} → (A → Act B) → Result A × Core1 → Result B × Core1
go_on f (ok a, c) = f a c
go_on f (raise e, c) = (raise e, c)

infixl 5 ◌>>=◌
abbrev pub ◌>>=◌ : {A B : Type 0} → Act A → (A → Act B) → Act B
m >>= f = λ c. go_on f (m c)

unfoldable pub uptime_ms : World → Core1 → ℕ × Core1
unfolding current_uptime_ms
uptime_ms w c =
    let (u, s) = current_uptime_ms w.elapsed (w.ticks_ms c.moment) c.uptime_state in
    (u, record c { uptime_state = s; moment = suc c.moment })

abbrev pub start_of : Option Value → Option ℤ
start_of (some (int_value n)) = some (pos n)
start_of (some (neg_value n)) = some (negsuc n)
start_of o = none

abbrev pub or_raise : Option String → Result Value
or_raise none = raise escape
or_raise (some text) = ok (str_value text)

abbrev pub time_from : World → ℕ → Option ℤ → Result Value
time_from w u none = raise escape
time_from w u (some start) = or_raise (format_utc_epoch_ms w.gmtime (plus start u))

-- _current_utc_timestamp, by what the mailbox holds: None without a snapshot.
unfoldable pub current_utc_timestamp : World → Value → ℕ → Result Value
current_utc_timestamp w (dict_value snapshot) u =
    time_from w u (start_of (lookup "runtime_start_epoch_ms" snapshot))
current_utc_timestamp w v u = ok none_value

abbrev pub timed : ℕ → Result Value → Act (ℕ × Value)
timed u (ok v) c = (ok (u, v), c)
timed u (raise e) c = (raise e, c)

-- _message_time
unfoldable pub message_time : World → Act (ℕ × Value)
unfolding uptime_ms current_utc_timestamp
message_time w c =
    let (u, c') = uptime_ms w c in
    timed u (current_utc_timestamp w c'.intercore.state_mailboxes.utc_snapshot u) c'

abbrev pub admitted : PutMessage → Result Bool
admitted (put_result b) = ok b
admitted put_invalid = raise value_error
admitted put_too_large = raise too_large
admitted put_out_of_memory = raise memory_error
admitted no_end = raise escape

-- outbound_queue.put
unfoldable pub put : World → String → Value → ℕ → Act Bool
put w kind message priority c =
    let (r, q) =
      Lane.put w.free w.json_dumps kind message (int_value priority) c.intercore.outbound_queue in
    (admitted r, record c { intercore = record c.intercore { outbound_queue = q } })
