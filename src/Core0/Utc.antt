-- ===== src/Core0/Utc.antt =====
-- core0.py: the requests for the time, and the publication of the network snapshot.
use Prim.Native.String as Text
use pico_dualcore.Prelude.{
  ℕ, suc, ◌+◌, ◌*◌, Bool, true, false, String, Option, none, some, List, [], ◌∷◌, ◌++◌,
  if◌then◌else◌, leb, is_some,
}
use pico_dualcore.Prelude.Int.{at_least}
use pico_dualcore.Value.{Value, end, bool_value, int_value, str_value, dict_value, none_value}
use pico_dualcore.Config.Unknown.{decimal}
use pico_dualcore.Message.{Dumped, bytes, out_of_memory, failed}
use pico_dualcore.Intercore.Container.{set_network_snapshot}
use pico_dualcore.MqttClient.Socket.{Bytes}
use pico_dualcore.Mqtt.{
  is_connected, Reason, wifi_lost, ping_timeout, publish_failure, check_msg_failure,
}
use pico_dualcore.Wifi as Wifi
use pico_dualcore.Core0.World.{World}
use pico_dualcore.Core0.State.{
  Core0, UtcSnapshot, transport, escape, Result, ok, raise, Act, Done, pure, throw, act, ◌>>=◌,
  message_schema_version,
}
use pico_dualcore.Core0.Basics.{object, now, uptime_ms}
use pico_dualcore.Core0.Info.{utc_clear_pending}
use pico_dualcore.Core0.Publish.{publish_qos1, note_mqtt_publish_completed}

infixr 65 ◌<>◌
abbrev ◌<>◌ : String → String → String
◌<>◌ s t = Text.◌++◌ s t

abbrev reason_text : Reason → String
reason_text wifi_lost = "wifi_lost"
reason_text ping_timeout = "ping_timeout"
reason_text publish_failure = "publish_failure"
reason_text check_msg_failure = "check_msg_failure"

abbrev reason_value : Option Reason → Value
reason_value none = none_value
reason_value (some r) = str_value (reason_text r)

module _ (w : World) where
  abbrev pub request_id : ℕ → String
  request_id n = w.runtime_id <> "_" <> decimal n

  abbrev pub request_value : String → Value
  request_value rid = dict_value (
      object (
        ("message_type", str_value "info_request")
        ∷ ("message_schema_version", int_value message_schema_version)
        ∷ ("source", str_value w.config.source)
        ∷ ("request_id", str_value rid)
        ∷ ("request_type", str_value "utc_time")
        ∷ ("payload", dict_value end)
        ∷ []))

  abbrev pub text_bytes : Dumped → Act Bytes
  text_bytes (bytes bs) = pure bs
  text_bytes out_of_memory = throw escape
  text_bytes failed = throw escape

  -- The stamps of a request that went out.
  abbrev pub sent : Core0 → Core0
  sent c =
      let c₁ = note_mqtt_publish_completed w c in
      let (last, c₂) = now w c₁ in
      let (t, c₃) = now w c₂ in
      record c₃ {
        utc_last_attempt_ms = some last;
        utc_request_deadline_ms =
            some (w.ticks_add t (w.config.mqtt_broker_response_timeout_sec * 1000));
      }

  abbrev pub requested : Result Done × Core0 → Result Done × Core0
  requested (ok u, c) = (ok tt, sent c)
  requested (raise transport, c) = (ok tt, record c { pending_utc_request_id = none })
  requested (raise e, c) = (raise e, c)

  unfoldable pub utc_send_request : Act Done
  unfolding publish_qos1 note_mqtt_publish_completed now decimal
  utc_send_request c =
      let n = suc c.utc_request_counter in
      requested (
        (do
          body ← text_bytes (w.json_dumps (request_value (request_id n)))
          publish_qos1 w w.config.mqtt_topic_info_request body none)
          (record c { utc_request_counter = n; pending_utc_request_id = some (request_id n) }))

  abbrev pub expired_by : Option ℕ → ℕ → Act Bool
  expired_by none t = throw escape
  expired_by (some deadline) t = pure (at_least 0 (w.ticks_diff t deadline))

  -- A deadline that has been reached; ticks_diff with None is a TypeError.
  unfoldable pub past_deadline : Act Bool
  unfolding now
  past_deadline c = let (t, c') = now w c in expired_by c'.utc_request_deadline_ms t c'

  unfoldable pub utc_request_expired : Act Done
  unfolding past_deadline utc_clear_pending
  utc_request_expired c =
      if is_some c.pending_utc_request_id
      then (do expired ← past_deadline; act (λ c'. if expired then utc_clear_pending w c' else c'))
          c
      else (ok tt, c)

  abbrev pub due_by : Option UtcSnapshot → Core0 → Bool × Core0
  due_by none c = (true, c)
  due_by (some s) c =
      let (u, c') = uptime_ms w c in
      (leb (s.sync_uptime_ms + w.config.datetime_sync_interval_min * 60 * 1000) u, c')

  unfoldable pub utc_sync_due : Core0 → Bool × Core0
  unfolding uptime_ms
  utc_sync_due c = due_by c.utc_snapshot c

  -- 30 s since the last attempt, if there was one.
  abbrev pub attempt_due : Option ℕ → Core0 → Bool × Core0
  attempt_due none c = (true, c)
  attempt_due (some last) c = let (t, c') = now w c in (at_least 30000 (w.ticks_diff t last), c')

  abbrev pub and_attempt_due : Bool × Core0 → Bool × Core0
  and_attempt_due (true, c) = attempt_due c.utc_last_attempt_ms c
  and_attempt_due (false, c) = (false, c)

  unfoldable pub utc_should_send_request : Core0 → Bool × Core0
  unfolding utc_sync_due now
  utc_should_send_request c =
      if is_some c.pending_utc_request_id then (false, c) else and_attempt_due (utc_sync_due c)

  abbrev session_items : Core0 → List (String × Value)
  session_items c =
      ("mqtt_connect_count", int_value c.mqtt.connect_count)
      ∷ ("mqtt_disconnect_count", int_value c.mqtt.disconnect_count)
      ∷ ("mqtt_last_disconnect_reason", reason_value c.mqtt.last_disconnect_reason)
      ∷ ("network_stack_ready", bool_value c.network_stack_ready)
      ∷ []

  abbrev wifi_items : Bool → Bool → List (String × Value) → Wifi.Wifi → List (String × Value)
  wifi_items up session details s =
      (("wifi_connected", bool_value up) ∷ ("mqtt_connected", bool_value session) ∷ details)
      ++ ("wifi_connect_count", int_value s.connect_count)
        ∷ ("wifi_disconnect_count", int_value s.disconnect_count)
        ∷ []

  -- The snapshot of this moment into the mailbox, with the time at which it is taken.
  unfoldable pub store_network_snapshot : ℕ → Core0 → Core0
  store_network_snapshot t c =
      let (up, s) = Wifi.snapshot w.radio c.wifi in
      let snapshot = dict_value (
        object (
          wifi_items up (is_connected c.mqtt) (w.link_details c.moment up) s ++ session_items c)) in
      let (stored, m) = set_network_snapshot snapshot c.intercore.state_mailboxes in
      record c {
        intercore = record c.intercore { state_mailboxes = m };
        wifi = s;
        moment = suc c.moment;
        last_network_snapshot_ms = some t;
      }

  abbrev pub snapshot_due : Bool → ℕ → Option ℕ → Bool
  snapshot_due force t none = true
  snapshot_due true t (some last) = true
  snapshot_due false t (some last) =
      at_least (w.config.network_snapshot_interval_sec * 1000) (w.ticks_diff t last)

  unfoldable pub publish_network_snapshot : Bool → Core0 → Core0
  unfolding now store_network_snapshot
  publish_network_snapshot force c =
      let (t, c') = now w c in
      if snapshot_due force t c'.last_network_snapshot_ms then store_network_snapshot t c' else c'
