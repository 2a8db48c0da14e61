-- ===== src/Mqtt.antt =====
-- mqtt.py: the session over the client, and sleep_sliced of network_wait.py. A new socket, and the time
-- at which an operation records its activity, are arguments. An allocation failure, which every handler
-- here passes on, is left out.
pub mod Sound
pub mod Reconnect
mod Tests
use pico_dualcore.Prelude.{
  ℕ, zero, suc, ◌+◌, ◌*◌, ◌/◌, max, Bool, true, false, not, ◌&&◌, Option, none, some, List, [], ◌∷◌,
  if◌then◌else◌, leb, is_some,
}
use pico_dualcore.MqttClient.Socket.{
  Bytes, Io, Link, Outcome, returned, raised, Raised, mqtt_exception, os_error, callback_error,
  out_of_fuel, ◌>>=◌, ◌>>◌, settimeout,
}
use pico_dualcore.MqttClient.Receive.{Callback}
use pico_dualcore.MqttClient.Send
use pico_dualcore.MqttClient.Send.{subscribe}

pub data Reason : Type 0 where
  wifi_lost ping_timeout publish_failure check_msg_failure : Reason

pub record Mqtt : Type 0 where
  pub client : Option Link
  pub connected : Bool
  pub connect_count : ℕ
  pub disconnect_count : ℕ
  pub last_connect_error : Option Raised
  pub last_disconnect_reason : Option Reason
  pub last_activity_ms : ℕ
  -- The slices of 100 ms slept between attempts, each behind a call of the service hook.
  pub slices : ℕ

-- What an operation of the session raises or returns, and the session it leaves.
abbrev pub Session : Type 0 → Type 0
Session A = Outcome A × Mqtt

-- What the configuration gives.
pub record Settings : Type 0 where
  pub client_id : Bytes
  pub command_topic : Bytes
  pub info_response_topic : Bytes
  pub keepalive : ℕ
  pub reconnect_delays : List ℕ
  pub message_callback : Callback

unfoldable pub is_connected : Mqtt → Bool
is_connected s = s.connected && is_some s.client

-- `except MQTT_TRANSPORT_ERRORS`: OSError and MQTTException.
abbrev pub is_transport : Raised → Bool
is_transport mqtt_exception = true
is_transport os_error = true
is_transport e = false

unfoldable pub mark_disconnected : Option Reason → Mqtt → Mqtt
mark_disconnected reason s = record s {
  connected = false;
  disconnect_count = if s.connected then suc s.disconnect_count else s.disconnect_count;
  last_disconnect_reason = if is_some reason then reason else s.last_disconnect_reason;
}

-- sleep_sliced, for a delay in whole seconds.
unfoldable pub sleep_sliced : ℕ → Mqtt → Mqtt
sleep_sliced delay_sec s = record s { slices = s.slices + delay_sec * 10 }

-- The handshake of one attempt on a new client.
unfoldable pub handshake : Settings → Bool → Io (Unit {0})
handshake settings reachable = do
  Send.connect reachable settings.client_id settings.keepalive true true
  subscribe settings.message_callback settings.command_topic
  subscribe settings.message_callback settings.info_response_topic
  settimeout false

-- The handler of a failed attempt, without the wait.
unfoldable pub attempt_failed : Raised → Mqtt → Mqtt
attempt_failed e s = record s {
  connected = false;
  disconnect_count = if s.connected then suc s.disconnect_count else s.disconnect_count;
  last_connect_error = some e;
}

-- The wait before the next attempt, if there is one.
unfoldable pub wait_for_next : ℕ → List ℕ → Mqtt → Mqtt
unfolding sleep_sliced
wait_for_next delay_sec [] s = s
wait_for_next delay_sec (d ∷ delays) s = sleep_sliced delay_sec s

-- What an attempt comes to; `again` goes on to the next.
unfoldable pub attempt_outcome :
    (Raised → Link → Session Bool) → ℕ → Mqtt → Outcome (Unit {0}) × Link → Session Bool
attempt_outcome again now s (returned u, link) = (
  returned true,
  record s {
    client = some link;
    connected = true;
    connect_count = suc s.connect_count;
    last_activity_ms = now;
  },
)
attempt_outcome again now s (raised e, link) =
    if is_transport e then again e link else (raised e, record s { client = some link })

-- The attempts from the k-th on; `socket k` is the k-th new socket, with whether it gets connected.
unfoldable pub connect_attempts :
    Settings → (ℕ → Bool × Link) → ℕ → ℕ → List ℕ → Mqtt → Session Bool
unfolding attempt_failed wait_for_next attempt_outcome
connect_attempts settings socket now k [] s = (returned false, s)
connect_attempts settings socket now k (delay_sec ∷ delays) s =
    attempt_outcome
      (λ e link.
        connect_attempts settings socket now (suc k) delays
          (wait_for_next delay_sec delays (attempt_failed e (record s { client = some link }))))
      now s (handshake settings (socket k).0 (socket k).1)

unfoldable pub connect : Settings → (ℕ → Bool × Link) → ℕ → Mqtt → Session Bool
connect settings socket now s =
    connect_attempts settings socket now 0 settings.reconnect_delays
      (record s { last_connect_error = none })

-- An operation of the client in a session: a transport failure marks it down, with the reason, and is
-- passed on; what follows a success is `done`.
unfoldable pub guard : {A : Type 0} → Reason → (Mqtt → Mqtt) → Mqtt → Outcome A × Link → Session A
guard reason done s (returned a, link) = (returned a, done (record s { client = some link }))
guard reason done s (raised e, link) = (
  raised e,
  if is_transport e
      then mark_disconnected (some reason) (record s { client = some link })
      else record s { client = some link },
)

-- The client's operation, if the session is up; otherwise the OSError of a session that is down.
unfoldable pub with_client :
    {A : Type 0} → Session A → Reason → (Mqtt → Mqtt) → Io A → Mqtt → Session A
unfolding guard
with_client down reason done m s = elim s.client [
  | none ↦ down
  | some link ↦ if s.connected then guard reason done s (m link) else down
]

-- _touch
unfoldable pub touch : ℕ → Mqtt → Mqtt
touch now s = record s { last_activity_ms = now }

unfoldable pub check_msg : Settings → Bool → Mqtt → Session (Option ℕ)
unfolding with_client
check_msg settings ready s =
    with_client (returned none, s) check_msg_failure (λ t. t)
      (Send.check_msg settings.message_callback ready) s

unfoldable pub publish_qos1 :
    Settings → ℕ → Bytes → Bytes → Option Bytes → Mqtt → Session (Unit {0})
unfolding with_client touch
publish_qos1 settings now topic message splice_fragment s =
    with_client (raised os_error, s) publish_failure (touch now)
      (Send.publish settings.message_callback topic message none true splice_fragment) s

-- A transport failure is an answer here.
unfoldable pub answered : Session (Unit {0}) → Session Bool
answered (returned u, s) = (returned true, s)
answered (raised e, s) = if is_transport e then (returned false, s) else (raised e, s)

unfoldable pub publish_qos1_with_packet_id :
    Settings → ℕ → Bytes → Bytes → ℕ → Bool → Mqtt → Session Bool
unfolding with_client touch answered
publish_qos1_with_packet_id settings now topic message packet_id timed s =
    if is_connected s
    then answered (
        with_client (raised os_error, s) publish_failure (touch now)
          (Send.publish settings.message_callback topic message (some packet_id) timed none) s)
    else (raised os_error, s)

-- keepalive // 2, and at least one second.
unfoldable pub ping_interval_sec : Settings → ℕ
ping_interval_sec settings = max (settings.keepalive / 2) 1

-- `elapsed` is the ticks_diff since the last activity, not negative.
unfoldable pub ping_due : Settings → ℕ → Mqtt → Bool
ping_due settings elapsed s =
    is_connected s && (leb 1 settings.keepalive && leb (ping_interval_sec settings * 1000) elapsed)

unfoldable pub ping : Settings → ℕ → Mqtt → Session (Unit {0})
unfolding with_client touch
ping settings now s =
    with_client (raised os_error, s) ping_timeout (touch now)
      (Send.ping settings.message_callback true) s
