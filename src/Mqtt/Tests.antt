-- ===== src/Mqtt/Tests.antt =====
-- A session that is up, and one whose first socket does not connect.
use pico_dualcore.Prelude.{ℕ, Bool, true, false, some, none, [], ◌∷◌, refl}
use pico_dualcore.MqttClient.Socket.{Link}
use pico_dualcore.Mqtt.{
  Mqtt, Settings, publish_failure, check_msg, publish_qos1, publish_qos1_with_packet_id, ping,
  mark_disconnected, connect,
}
use pico_dualcore.Mqtt.Sound.{Kept, DownedAnswer, IsSound, session-IsSound}
use pico_dualcore.Mqtt.Reconnect.{connect-IsSound}

-- A CONNACK and the SUBACKs of the ids 1 and 2.
abbrev socket : Link
socket = record {
  inbound = 32 ∷ 2 ∷ 0 ∷ 0 ∷ 144 ∷ 3 ∷ 0 ∷ 1 ∷ 1 ∷ 144 ∷ 3 ∷ 0 ∷ 2 ∷ 1 ∷ [];
  outbound = [];
  capacity = 500;
  mode_changes = 9;
  timed = false;
  closed = false;
  fed = false;
  unfed = false;
  largest = 0;
  pid = 0;
  delivered = [];
}

abbrev settings : Settings
settings = record {
  client_id = 112 ∷ [];
  command_topic = 99 ∷ [];
  info_response_topic = 105 ∷ [];
  keepalive = 60;
  reconnect_delays = 1 ∷ 2 ∷ [];
  message_callback = λ topic msg. false;
}

abbrev down : Mqtt
down = record {
  client = none;
  connected = false;
  connect_count = 0;
  disconnect_count = 0;
  last_connect_error = none;
  last_disconnect_reason = none;
  last_activity_ms = 0;
  slices = 0;
}

abbrev up : Mqtt
up = record down { client = some socket; connected = true; connect_count = 1 }

abbrev sockets : ℕ → Bool × Link
sockets k = elim k [ ℕ.zero ↦ (false, socket) | ℕ.suc n ↦ (true, socket) ]

down-IsSound : IsSound down
down-IsSound = record { counts = refl; ready = tt }

up-IsSound : IsSound up
up-IsSound = record { counts = refl; ready = refl }

connect-IsSound_example : IsSound (connect settings sockets 5 down).1
connect-IsSound_example = connect-IsSound settings sockets 5 down down-IsSound refl

session-IsSound_example :
    Kept (check_msg settings true up)
    × Kept (publish_qos1 settings 5 (99 ∷ []) (123 ∷ 125 ∷ []) none up)
    × (IsSound (publish_qos1_with_packet_id settings 5 (99 ∷ []) (123 ∷ 125 ∷ []) 7 true up).1
        × DownedAnswer
            (publish_qos1_with_packet_id settings 5 (99 ∷ []) (123 ∷ 125 ∷ []) 7 true up))
    × Kept (ping settings 5 up)
    × IsSound (mark_disconnected (some publish_failure) up)
session-IsSound_example =
    session-IsSound settings true true 5 7 (99 ∷ []) (123 ∷ 125 ∷ []) none (some publish_failure) up
      up-IsSound
