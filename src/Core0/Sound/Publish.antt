-- ===== src/Core0/Sound/Publish.antt =====
-- core0.py: a publish keeps the bounds, with the messages that arrive in it.
use pico_dualcore.Prelude.{
  ℕ, suc, Bool, true, false, String, Option, none, some, List, [], ◌∷◌, ◌≡◌, refl, if◌then◌else◌,
}
use pico_dualcore.Message.{
  Dumped, bytes, out_of_memory, failed, Serialized, payload, raised, memory_error,
  message_too_large, unsupported_value,
}
use pico_dualcore.MqttClient.Socket.{Bytes, Outcome, returned, Raised}
use pico_dualcore.LedManager.{telemetry_sent}
use pico_dualcore.MqttClient.Socket as Socket
use pico_dualcore.Mqtt.{Mqtt, Session, is_transport, is_connected}
use pico_dualcore.Mqtt as Session
use pico_dualcore.Value.{Value}
use pico_dualcore.Core0.World.{World}
use pico_dualcore.Core0.Service.{slices}
use pico_dualcore.Core0.State.{
  Core0, Response, RebootRequest, Stamps, Failure, UtcSnapshot, Exn, transport, too_large, escape,
  response_too_large, response_invalid, Result, ok, raise, Act, Done, pure, act,
}
use pico_dualcore.Core0.Basics.{now, uptime_ms, current_utc_timestamp, timestamp_by, or_raise}
use pico_dualcore.Core0.Command.{on_mqtt_message}
use pico_dualcore.Core0.Publish.{
  deliver_all, settled, exchange, publish_qos1, publish_entry, note_mqtt_publish_completed,
  envelope_fragment, claim_wire_sequence, claimed_by, fresh, concluded, stripped, or_escape,
  require,
}
use pico_dualcore.Core0.Respond.{
  published, publish_frozen, unsendable, publish_serialized, response_message, publish_response,
  publish_bytes,
}
use pico_dualcore.Core0.Keeps.{
  Keeps, pure-Keeps, throw-Keeps, act-Keeps, bind-Keeps, then-Keeps, if-Keeps,
}
use pico_dualcore.Core0.Sound.{IsSound, Sound}

-- A property of the ids, the responses, the reboot, the reset, the wire sequences and the stamp of Core 1.
abbrev pub View : Type 1
View = List String → List Response → Option RebootRequest → Bool → ℕ → List (ℕ × ℕ) → Value → Type 0

abbrev pub Viewed : View → Core0 → Type 0
Viewed R c =
    R c.recent_command_ids c.pending_core0_responses c.pending_reboot c.resets c.next_sequence
      c.entry_sequences c.intercore.state_mailboxes.core_1_activity_ms

abbrev pub Bounds : View
Bounds ids rs q b next es stamp = Sound ids rs q next es

-- What the claim of a sequence by r must keep.
abbrev pub MayClaim : View → ((Stamps → Stamps) → Core0 → Core0) → Response → Core0 → Type 0
MayClaim R stamp r c =
    let (sequence, s, c') = claimed_by r.stamps.wire_sequence r.stamps c in
    Viewed R (stamp (λ _. s) c')

abbrev pub Safe : {A : Type 0} → Act A → Type 0
Safe m = Keeps IsSound m

-- A step that leaves the ids, the responses and the reboot alone.
pub plain : (f : Core0 → Core0) → ((c : Core0) → IsSound c → IsSound (f c)) → Safe (act f)
plain = act-Keeps IsSound

module _ (w : World) (R : View)
    (arrive : (topic payload : Bytes) (c : Core0)
      → Viewed R c
      → Viewed R (on_mqtt_message w topic payload c).1)
    (hooks : (n : ℕ) → Keeps (Viewed R) (slices w n)) where
  abbrev Keeping : {A : Type 0} → Act A → Type 0
  Keeping m = Keeps (Viewed R) m

  deliver_all-Safe : (ds : List (Bytes × Bytes)) → Keeping (deliver_all w ds)
  unfolding deliver_all
  deliver_all-Safe [] = pure-Keeps (Viewed R) tt
  deliver_all-Safe ((topic, message) ∷ ds) =
      then-Keeps (Viewed R) (record { at = λ c s. arrive topic message c s }) (deliver_all-Safe ds)

  concluded-Safe : {A : Type 0} (r : Outcome A) → Keeping (concluded r)
  concluded-Safe (returned a) = pure-Keeps (Viewed R) a
  concluded-Safe (Socket.raised e) =
      if-Keeps (Viewed R) (is_transport e) (throw-Keeps (Viewed R) transport)
        (throw-Keeps (Viewed R) escape)

  pub settled-Safe :
      {A : Type 0} (calls : ℕ) (before : Mqtt) (r : Session A) → Keeping (settled w calls before r)
  unfolding settled
  settled-Safe calls before (r, m) = then-Keeps (Viewed R) (hooks calls) (
      then-Keeps (Viewed R) (act-Keeps (Viewed R) _ (λ c s. s))
        (then-Keeps (Viewed R) (deliver_all-Safe (fresh before m)) (concluded-Safe r)))

  pub exchange-Safe : {A : Type 0} (op : Mqtt → Session A) → Keeping (exchange w op)
  unfolding exchange
  exchange-Safe op = record {
    at = λ c s. (settled-Safe (w.hook_calls c.moment) c.mqtt (op c.mqtt)).at c s;
  }

  pub publish_qos1-Safe :
      (topic : String) (message : Bytes) (o : Option Bytes)
      → Keeping (publish_qos1 w topic message o)
  unfolding publish_qos1 now
  publish_qos1-Safe topic message o = record {
    at = λ c s.
        (exchange-Safe
            (Session.publish_qos1 w.settings (w.ticks_ms c.moment) (w.encode topic) message o)).at
          (record c { moment = suc c.moment }) s;
  }

  require-Safe : (b : Bool) (e : Exn) → Keeping (require w b e)
  require-Safe true e = pure-Keeps (Viewed R) tt
  require-Safe false e = throw-Keeps (Viewed R) e

  stripped-Safe : (d : Dumped) → Keeping (stripped w d)
  stripped-Safe (bytes text) = pure-Keeps (Viewed R) _
  stripped-Safe out_of_memory = throw-Keeps (Viewed R) escape
  stripped-Safe failed = throw-Keeps (Viewed R) escape

  or_escape-Safe : (o : Option String) → Keeping (or_escape w o)
  or_escape-Safe none = throw-Keeps (Viewed R) escape
  or_escape-Safe (some topic) = pure-Keeps (Viewed R) topic

  pub publish_entry-Safe :
      (topic : Option String) (telemetry : Bool) (body : Bytes) (claim : Act ℕ)
      → Keeping claim
      → Keeping (publish_entry w topic telemetry body claim)
  unfolding publish_entry envelope_fragment note_mqtt_publish_completed now
  publish_entry-Safe topic telemetry body claim k = then-Keeps (Viewed R) (require-Safe _ escape) (
      bind-Keeps (Viewed R) k λ sequence. bind-Keeps (Viewed R) (stripped-Safe _) λ fragment.
        then-Keeps (Viewed R) (require-Safe _ too_large) (
          bind-Keeps (Viewed R) (or_escape-Safe topic) λ topic'.
            then-Keeps (Viewed R) (publish_qos1-Safe topic' body (some fragment)) (
              then-Keeps (Viewed R) (act-Keeps (Viewed R) _ (λ c s. s))
                (act-Keeps (Viewed R) _ (λ c s. lit telemetry c s)))))
    where
      lit :
          (b : Bool) (c : Core0)
          → Viewed R c
          → Viewed R (if b then record c { led = telemetry_sent c.led } else c)
      lit true c s = s
      lit false c s = s

  module _ (stamp : (Stamps → Stamps) → Core0 → Core0)
      (stamp-IsSound : (f : Stamps → Stamps) (c : Core0)
        → ((s : Stamps) → (f s).wire_sequence ≡ s.wire_sequence)
        → Viewed R c
        → Viewed R (stamp f c)) where
    published-keeps : (r : Result Done × Core0) → Viewed R r.1 → Viewed R (published w stamp r).1
    published-keeps (ok u, c) s = s
    published-keeps (raise too_large, c) s = stamp-IsSound _ c (λ t. refl) s
    published-keeps (raise transport, c) s = s
    published-keeps (raise e, c) s = s

    publish_frozen-Safe :
        (sequence : ℕ) (body : Bytes) → Keeping (publish_frozen w stamp sequence body)
    unfolding publish_frozen
    publish_frozen-Safe sequence body = record {
      at = λ c s. published-keeps _ (
          (publish_entry-Safe (some w.config.mqtt_topic_command_response) false body (pure sequence)
              (pure-Keeps (Viewed R) sequence)).at
            c s);
    }

    unsendable-Safe : (failure : Failure) → Keeping (unsendable w stamp failure)
    unsendable-Safe failure =
        then-Keeps (Viewed R) (act-Keeps (Viewed R) _ λ c s. stamp-IsSound _ c (λ t. refl) s)
          (pure-Keeps (Viewed R) false)

    publish_serialized-Safe :
        (sequence : ℕ) (z : Serialized) → Keeping (publish_serialized w stamp sequence z)
    unfolding publish_serialized
    publish_serialized-Safe sequence (payload body) =
        then-Keeps (Viewed R) (act-Keeps (Viewed R) _ λ c s. stamp-IsSound _ c (λ t. refl) s)
          (publish_frozen-Safe sequence body)
    publish_serialized-Safe sequence memory_error = throw-Keeps (Viewed R) escape
    publish_serialized-Safe sequence (raised message_too_large) = unsendable-Safe response_too_large
    publish_serialized-Safe sequence (raised unsupported_value) = unsendable-Safe response_invalid
    publish_serialized-Safe sequence (raised e) = unsendable-Safe response_invalid

    or_raise-keeps : (o : Option String) (c : Core0) → Viewed R c → Viewed R (or_raise o c).1
    or_raise-keeps none c s = s
    or_raise-keeps (some text) c s = s

    timestamp_by-keeps :
        (o : Option UtcSnapshot) (c : Core0) → Viewed R c → Viewed R (timestamp_by w o c).1
    unfolding uptime_ms
    timestamp_by-keeps none c s = s
    timestamp_by-keeps (some snapshot) c s = or_raise-keeps _ _ s

    timestamp-Safe : Keeping (current_utc_timestamp w)
    unfolding current_utc_timestamp
    timestamp-Safe = record { at = λ c s. timestamp_by-keeps c.utc_snapshot c s }

    response_message-Safe : (r : Response) → Keeping (response_message w r)
    unfolding response_message uptime_ms
    response_message-Safe r =
        bind-Keeps (Viewed R) (record { at = λ c s. s })
          λ u. bind-Keeps (Viewed R) timestamp-Safe λ timestamp. pure-Keeps (Viewed R) _

    publish_bytes-Safe :
        (r : Response) (sequence : ℕ) (o : Option Bytes)
        → Keeping (publish_bytes w stamp r sequence o)
    unfolding publish_bytes
    publish_bytes-Safe r sequence none =
        bind-Keeps (Viewed R) (response_message-Safe r)
          λ message. publish_serialized-Safe sequence _
    publish_bytes-Safe r sequence (some body) = publish_frozen-Safe sequence body

    pub publish_response-keeps :
        (r : Response) (c : Core0)
        → MayClaim R stamp r c
        → Viewed R (publish_response w stamp r c).1
    unfolding publish_response claim_wire_sequence
    publish_response-keeps r c h =
        let (sequence, s, c') = claimed_by r.stamps.wire_sequence r.stamps c in
        (publish_bytes-Safe r sequence s.frozen_bytes).at (stamp (λ _. s) c') h
