-- ===== src/Core0/State.antt =====
-- core0.py: the state of Core 0, and its operations as steps that end or raise.
use pico_dualcore.Prelude.{ℕ, Bool, String, Option, none, List}
use pico_dualcore.Prelude.Int.{ℤ}
use pico_dualcore.Value.{Value}
use pico_dualcore.Uptime.{UptimeState}
use pico_dualcore.Intercore.Container.{InterCore}
use pico_dualcore.LedManager.{LedManager}
use pico_dualcore.Wifi.{Wifi}
use pico_dualcore.Mqtt.{Mqtt}
use pico_dualcore.MqttClient.Socket.{Bytes}

abbrev pub max_pending_core0_responses : ℕ
max_pending_core0_responses = 4

abbrev pub recent_command_id_capacity : ℕ
recent_command_id_capacity = 16

abbrev pub firmware_version : String
firmware_version = "0.4.158"

abbrev pub message_schema_version : ℕ
message_schema_version = 3

pub data Failure : Type 0 where
  response_too_large response_invalid : Failure

-- What is stamped on a message that waits: its wire sequence, its bytes, why it can never be sent.
pub record Stamps : Type 0 where
  pub wire_sequence : Option ℕ
  pub frozen_bytes : Option Bytes
  pub permanent_failure : Option Failure

abbrev pub unstamped : Stamps
unstamped = record { wire_sequence = none; frozen_bytes = none; permanent_failure = none }

-- `result` is the data of a success, and the error otherwise.
pub record Response : Type 0 where
  pub command_id : String
  pub command : Option String
  pub success : Bool
  pub targeted : Bool
  pub result : Value
  pub clears_pending_reboot : Bool
  pub stamps : Stamps

pub record RebootRequest : Type 0 where
  pub command_id : String
  pub targeted : Bool
  pub answer_queued : Bool
  pub stamps : Stamps

pub record UtcSnapshot : Type 0 where
  pub timestamp : String
  pub utc_epoch_ms : ℕ
  pub sync_uptime_ms : ℕ
  pub runtime_start_epoch_ms : ℤ

pub record Core0 : Type 0 where
  pub intercore : InterCore
  pub wifi : Wifi
  pub mqtt : Mqtt
  pub led : LedManager
  pub uptime_state : UptimeState
  pub pending_reboot : Option RebootRequest
  pub recent_command_ids : List String
  pub pending_core0_responses : List Response
  pub utc_request_counter : ℕ
  pub pending_utc_request_id : Option String
  pub utc_request_deadline_ms : Option ℕ
  pub utc_last_attempt_ms : Option ℕ
  pub utc_snapshot : Option UtcSnapshot
  pub last_network_snapshot_ms : Option ℕ
  pub last_mqtt_publish_completed_ms : Option ℕ
  pub last_command_poll_ms : ℕ
  pub next_sequence : ℕ
  pub network_stack_ready : Bool
  pub wdt_armed : Bool
  -- The readings of the world so far, the feeds of the watchdog, and whether machine.reset() was called.
  pub moment : ℕ
  pub feeds : ℕ
  pub resets : Bool
  -- The sequence that is stamped on an entry of the outbound queue, by the identity of the entry.
  pub entry_sequences : List (ℕ × ℕ)

-- What leaves an operation before its end: an OSError or an MQTTException, the error of a message that is
-- too large, any other exception, which ends run(), and machine.reset(), which does not return. The last is
-- for loops that run on fuel.
pub data Exn : Type 0 where
  transport too_large escape halted out_of_fuel : Exn

pub data Result (A : Type 0) : Type 0 where
  ok : A → Result A
  raise : Exn → Result A

abbrev pub Act : Type 0 → Type 0
Act A = Core0 → Result A × Core0

abbrev pub Done : Type 0
Done = Unit {0}

abbrev pub pure : {A : Type 0} → A → Act A
pure a c = (ok a, c)

abbrev pub throw : {A : Type 0} → Exn → Act A
throw e c = (raise e, c)

abbrev pub go_on : {A B : Type 0} → (A → Act B) → Result A × Core0 → Result B × Core0
go_on f (ok a, c) = f a c
go_on f (raise e, c) = (raise e, c)

infixl 5 ◌>>=◌ ◌>>◌
unfoldable pub ◌>>=◌ : {A B : Type 0} → Act A → (A → Act B) → Act B
m >>= f = λ c. go_on f (m c)

unfoldable pub ◌>>◌ : {A B : Type 0} → Act A → Act B → Act B
unfolding ◌>>=◌
m >> k = m >>= λ _. k

abbrev pub act : (Core0 → Core0) → Act Done
act f c = (ok tt, f c)
