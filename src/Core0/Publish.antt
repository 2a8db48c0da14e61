-- ===== src/Core0/Publish.antt =====
-- core0.py: one publish. The session's operations run on the session in the state, and the messages that
-- they deliver go through the callback of Core 0.
use pico_dualcore.Prelude.{
  ℕ, zero, suc, ◌+◌, ◌-◌, Bool, true, false, String, Option, none, some, List, [], ◌∷◌,
  if◌then◌else◌, leb, length, ◌==◌,
}
use text.Mathlib.Text.{◌==◌ as str_eq}
use pico_dualcore.Prelude.Int.{at_least}
use pico_dualcore.Value.{int_value, str_value, dict_value}
use pico_dualcore.Message.{Dumped, max_outbound_message_bytes, bytes, out_of_memory, failed}
use pico_dualcore.Intercore.Outbound.{kind_telemetry, kind_command_response, kind_health, kind_log}
use pico_dualcore.LedManager.{telemetry_sent}
use pico_dualcore.MqttClient.Socket.{Bytes, Link, Outcome, returned}
use pico_dualcore.MqttClient.Socket as Socket
use pico_dualcore.MqttClient.Send.{but_last}
use pico_dualcore.Mqtt.{Mqtt, Session, is_transport}
use pico_dualcore.Mqtt as Session
use pico_dualcore.Core0.World.{World}
use pico_dualcore.Core0.State.{
  Core0, Stamps, Exn, transport, too_large, escape, ok, Act, Done, pure, throw, act, ◌>>=◌, ◌>>◌,
  firmware_version, message_schema_version,
}
use pico_dualcore.Core0.Basics.{object, now}
use pico_dualcore.Core0.Command.{on_mqtt_message}
use pico_dualcore.Core0.Service.{slices}

abbrev link_delivered : Option Link → List (Bytes × Bytes)
link_delivered none = []
link_delivered (some link) = link.delivered

-- The first n of a list, the last of them first.
abbrev first_reversed : ℕ → List (Bytes × Bytes) → List (Bytes × Bytes) → List (Bytes × Bytes)
first_reversed zero ds out = out
first_reversed (suc n) [] out = out
first_reversed (suc n) (d ∷ ds) out = first_reversed n ds (d ∷ out)

-- The calls of the callback in an operation, in their order.
unfoldable pub fresh : Mqtt → Mqtt → List (Bytes × Bytes)
fresh before after =
    let ds = link_delivered after.client in
    first_reversed (length ds - length (link_delivered before.client)) ds []

-- What an operation of the session comes to, once the callback has run.
abbrev pub concluded : {A : Type 0} → Outcome A → Act A
concluded (returned a) = pure a
concluded (Socket.raised e) = if is_transport e then throw transport else throw escape

module _ (w : World) where
  unfoldable pub deliver_all : List (Bytes × Bytes) → Act Done
  unfolding on_mqtt_message
  deliver_all [] = pure tt
  deliver_all ((topic, message) ∷ ds) = do on_mqtt_message w topic message; deliver_all ds

  -- The calls of the service hook in an operation of the session; then, unless one of them reset the
  -- board, what the operation leaves, and the messages that arrived in it since `before`.
  unfoldable pub settled : {A : Type 0} → ℕ → Mqtt → Session A → Act A
  unfolding slices deliver_all fresh
  settled calls before (r, m) = do
    slices w calls
    act (λ c. record c { mqtt = m })
    deliver_all (fresh before m)
    concluded r

  -- An operation on the client that is there.
  unfoldable pub exchange : {A : Type 0} → (Mqtt → Session A) → Act A
  unfolding settled
  exchange op c = settled (w.hook_calls c.moment) c.mqtt (op c.mqtt) c

  unfoldable pub publish_qos1 : String → Bytes → Option Bytes → Act Done
  unfolding exchange now
  publish_qos1 topic message splice_fragment c =
      let (t, c') = now w c in
      exchange (Session.publish_qos1 w.settings t (w.encode topic) message splice_fragment) c'

  abbrev pub ready_after : Option ℕ → Core0 → Bool × Core0
  ready_after none c = (true, c)
  ready_after (some last) c =
      if w.config.mqtt_outbound_publish_delay_ms == 0
      then (true, c)
      else (let (t, c') = now w c in
          (at_least w.config.mqtt_outbound_publish_delay_ms (w.ticks_diff t last), c'))

  -- _mqtt_publish_ready
  unfoldable pub mqtt_publish_ready : Core0 → Bool × Core0
  unfolding now
  mqtt_publish_ready c = ready_after c.last_mqtt_publish_completed_ms c

  unfoldable pub note_mqtt_publish_completed : Core0 → Core0
  unfolding now
  note_mqtt_publish_completed c =
      let (t, c') = now w c in record c' { last_mqtt_publish_completed_ms = some t }

  unfoldable pub topic_for_kind : String → Option String
  topic_for_kind kind =
      if str_eq kind kind_telemetry
      then some w.config.mqtt_topic_telemetry
      else if str_eq kind kind_command_response
      then some w.config.mqtt_topic_command_response
      else if str_eq kind kind_health
      then some w.config.mqtt_topic_health
      else if str_eq kind kind_log
      then some w.config.mqtt_topic_log
      else none

  -- text[1:-1]
  abbrev inner : Bytes → Bytes
  inner [] = []
  inner (b ∷ bs) = but_last bs

  abbrev pub stripped : Dumped → Act Bytes
  stripped (bytes text) = pure (inner text)
  stripped out_of_memory = throw escape
  stripped failed = throw escape

  unfoldable pub envelope_fragment : ℕ → Act Bytes
  envelope_fragment sequence = stripped (
      w.json_dumps (
        dict_value (
          object (
            ("sequence", int_value sequence)
            ∷ ("runtime_id", str_value w.runtime_id)
            ∷ ("source", str_value w.config.source)
            ∷ ("firmware_version", str_value firmware_version)
            ∷ ("message_schema_version", int_value message_schema_version)
            ∷ []))))

  -- payload[-1:] == b"}"
  unfoldable pub ends_in_brace : Bytes → Bool
  ends_in_brace [] = false
  ends_in_brace (b ∷ []) = b == 125
  ends_in_brace (b ∷ (b' ∷ bs)) = ends_in_brace (b' ∷ bs)

  abbrev pub or_escape : Option String → Act String
  or_escape none = throw escape
  or_escape (some topic) = pure topic

  abbrev pub require : Bool → Exn → Act Done
  require true e = pure tt
  require false e = throw e

  -- _publish_entry, for an entry whose sequence `claim` gives.
  unfoldable pub publish_entry : Option String → Bool → Bytes → Act ℕ → Act Done
  unfolding publish_qos1 note_mqtt_publish_completed envelope_fragment ends_in_brace
  publish_entry topic telemetry body claim = do
    require (ends_in_brace body) escape
    sequence ← claim
    fragment ← envelope_fragment sequence
    require (leb (length body + length fragment + 1) max_outbound_message_bytes) too_large
    topic' ← or_escape topic
    publish_qos1 topic' body (some fragment)
    act note_mqtt_publish_completed
    act (λ c. if telemetry then record c { led = telemetry_sent c.led } else c)

abbrev pub claimed_by : Option ℕ → Stamps → Core0 → ℕ × Stamps × Core0
claimed_by (some sequence) s c = (sequence, s, c)
claimed_by none s c = (
  c.next_sequence,
  record s { wire_sequence = some c.next_sequence },
  record c { next_sequence = suc c.next_sequence },
)

-- The sequence of a message, claimed if it has none yet.
unfoldable pub claim_wire_sequence : Stamps → Core0 → ℕ × Stamps × Core0
claim_wire_sequence s c = claimed_by s.wire_sequence s c

abbrev pub entry_sequence : ℕ → List (ℕ × ℕ) → Option ℕ
entry_sequence ident [] = none
entry_sequence ident ((j, sequence) ∷ rest) =
    if j == ident then some sequence else entry_sequence ident rest

abbrev pub entry_claimed_by : ℕ → Option ℕ → Act ℕ
entry_claimed_by ident (some sequence) c = (ok sequence, c)
entry_claimed_by ident none c = (
  ok c.next_sequence,
  record c {
    next_sequence = suc c.next_sequence;
    entry_sequences = (ident, c.next_sequence) ∷ c.entry_sequences;
  },
)

-- The same for an entry of the outbound queue.
unfoldable pub claim_entry_sequence : ℕ → Act ℕ
claim_entry_sequence ident c = entry_claimed_by ident (entry_sequence ident c.entry_sequences) c
