-- ===== src/MqttClient/Delivery/Tests.antt =====
-- A link on which a PUBLISH and its PUBACK arrive.
use pico_dualcore.Prelude.{true, false, some, none, [], ◌∷◌, ◌++◌, ◌≡◌, refl, arith, All}
use pico_dualcore.MqttClient.Socket.{
  Bytes, Link, returned, u16, send_str, read_required, read, write, service, settimeout, require,
  advance_packet_id,
}
use pico_dualcore.MqttClient.{encode_length, publish_size, next_packet_id}
use pico_dualcore.MqttClient.Receive.{
  Callback, wait_msg, first_byte, receive, receive_publish, receive_body, receive_length_from,
  deliver,
}
use pico_dualcore.MqttClient.Send.{
  exchange, write_message, await_puback, publish, subscribe, ping, check_msg,
}
use pico_dualcore.MqttClient.Operations.{Fed, operations_feed}
use pico_dualcore.MqttClient.Frames.{spliced, publish-spliced}
use pico_dualcore.MqttClient.Delivery.Publish.{wait_msg-delivers}

abbrev quiet : Callback
quiet topic msg = false

-- The topic "t" with the message "{}" and the packet id 7, and the PUBACK of id 1.
abbrev arriving : Bytes
arriving = 50 ∷ 7 ∷ 0 ∷ 1 ∷ 116 ∷ 0 ∷ 7 ∷ 123 ∷ 125 ∷ 64 ∷ 2 ∷ 0 ∷ 1 ∷ []

abbrev link : Link
link = record {
  inbound = arriving;
  outbound = [];
  capacity = 100;
  mode_changes = 9;
  timed = false;
  closed = false;
  fed = false;
  unfed = false;
  largest = 0;
  pid = 0;
  delivered = [];
}

wait_msg-delivers_example :
    (k : Link) × (wait_msg quiet link ≡ (returned (some 50), k))
    × (k.inbound ≡ 64 ∷ 2 ∷ 0 ∷ 1 ∷ [])
    × (k.delivered ≡ (116 ∷ [], 123 ∷ 125 ∷ []) ∷ [])
    × (k.outbound ≡ [] ++ (64 ∷ 2 ∷ u16 7))
unfolding publish_size encode_length
wait_msg-delivers_example =
    wait_msg-delivers quiet (116 ∷ []) (123 ∷ 125 ∷ []) (7 ∷ []) (64 ∷ 2 ∷ 0 ∷ 1 ∷ []) 7 link refl
      (omega arith) refl (omega arith) refl

operations_feed_example : All Fed (
    (publish quiet (116 ∷ []) (123 ∷ 125 ∷ []) none true none link).1
    ∷ (subscribe quiet (116 ∷ []) link).1
    ∷ (ping quiet true link).1
    ∷ (check_msg quiet true link).1
    ∷ [])
operations_feed_example =
    operations_feed quiet (116 ∷ []) (123 ∷ 125 ∷ []) none true true none link refl (omega arith)

publish-spliced_example :
    publish quiet (116 ∷ []) (123 ∷ 125 ∷ []) none true (some (49 ∷ []))
    ≡ publish quiet (116 ∷ []) (spliced (123 ∷ 125 ∷ []) (49 ∷ [])) none true none
publish-spliced_example =
    publish-spliced quiet (116 ∷ []) (123 ∷ 125 ∷ []) (49 ∷ []) none true (omega arith)

-- The message that arrives during the exchange is delivered and acknowledged, and the PUBACK ends it.
publish_run : (publish quiet (116 ∷ []) (123 ∷ 125 ∷ []) none true (some (49 ∷ [])) link) ≡ (
  returned tt,
  record link {
    inbound = [];
    outbound = 50 ∷ 9 ∷ 0 ∷ 1 ∷ 116 ∷ 0 ∷ 1 ∷ 123 ∷ 44 ∷ 49 ∷ 125 ∷ 64 ∷ 2 ∷ 0 ∷ 7 ∷ [];
    capacity = 85;
    mode_changes = 7;
    largest = 2;
    pid = 1;
    delivered = (116 ∷ [], 123 ∷ 125 ∷ []) ∷ [];
  },
)
unfolding publish exchange send_str write_message await_puback wait_msg first_byte receive
    receive_publish receive_body receive_length_from deliver read_required read write service
    settimeout require advance_packet_id publish_size encode_length next_packet_id
publish_run = refl
