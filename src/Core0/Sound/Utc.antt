-- ===== src/Core0/Sound/Utc.antt =====
-- core0.py: the requests for the time keep the bounds.
use pico_dualcore.Prelude.{ℕ, suc, Bool, true, false, Option, none, some, if◌then◌else◌, is_some}
use pico_dualcore.Message.{Dumped, bytes, out_of_memory, failed}
use pico_dualcore.Mqtt.{is_connected}
use pico_dualcore.Core0.World.{World}
use pico_dualcore.Core0.State.{
  Core0, UtcSnapshot, transport, escape, Result, ok, raise, Act, Done, act, ◌>>=◌,
}
use pico_dualcore.Core0.Basics.{now, uptime_ms}
use pico_dualcore.Core0.Info.{utc_clear_pending}
use pico_dualcore.Core0.Publish.{note_mqtt_publish_completed, mqtt_publish_ready}
use pico_dualcore.Core0.Keeps.{pure-Keeps, throw-Keeps, bind-Keeps}
use pico_dualcore.Core0.Sound.{IsSound, on_mqtt_message-IsSound}
use pico_dualcore.Core0.Sound.Service.{slices-Safe}
use pico_dualcore.Core0.Sound.Publish.{Bounds, Safe, plain, publish_qos1-Safe}
use pico_dualcore.Core0.Network.{asking, when}
use pico_dualcore.Core0.Utc.{
  utc_send_request, requested, utc_request_expired, utc_should_send_request, utc_sync_due, due_by,
  attempt_due, and_attempt_due, past_deadline, expired_by, text_bytes, request_value, request_id,
}
use pico_dualcore.Core0.Run.{request_time_if_due}
use pico_dualcore.Core0.Sound.Reboot.{asking-Safe, when-Safe, ready-IsSound}

module _ (w : World) where
  text_bytes-Safe : (d : Dumped) → Safe (text_bytes w d)
  text_bytes-Safe (bytes bs) = pure-Keeps IsSound bs
  text_bytes-Safe out_of_memory = throw-Keeps IsSound escape
  text_bytes-Safe failed = throw-Keeps IsSound escape

  requested-IsSound : (r : Result Done × Core0) → IsSound r.1 → IsSound (requested w r).1
  unfolding note_mqtt_publish_completed now
  requested-IsSound (ok u, c) s = s
  requested-IsSound (raise transport, c) s = s
  requested-IsSound (raise escape, c) s = s
  requested-IsSound (raise e, c) s = s

  send-Safe : Safe (utc_send_request w)
  unfolding utc_send_request
  send-Safe = record {
    at = λ c s.
        let n = suc c.utc_request_counter in
        let rid = request_id w n in
        requested-IsSound _ (
          (bind-Keeps IsSound (text_bytes-Safe (w.json_dumps (request_value w rid))) λ body.
              publish_qos1-Safe w Bounds (on_mqtt_message-IsSound w) (slices-Safe w)
                w.config.mqtt_topic_info_request body none).at
            (record c { utc_request_counter = n; pending_utc_request_id = some rid }) s);
  }

  expired_by-Safe : (o : Option ℕ) (t : ℕ) → Safe (expired_by w o t)
  expired_by-Safe none t = throw-Keeps IsSound escape
  expired_by-Safe (some deadline) t = pure-Keeps IsSound _

  past_deadline-Safe : Safe (past_deadline w)
  unfolding past_deadline now
  past_deadline-Safe = record {
    at = λ c s.
        (expired_by-Safe c.utc_request_deadline_ms (w.ticks_ms c.moment)).at
          (record c { moment = suc c.moment }) s;
  }

  pub expired-Safe : Safe (utc_request_expired w)
  unfolding utc_request_expired
  expired-Safe = record { at = λ c s. go c s (is_some c.pending_utc_request_id) }
    where
      cleared :
          (b : Bool) (c : Core0) → IsSound c → IsSound (if b then utc_clear_pending w c else c)
      cleared true c s = unfold utc_clear_pending in s
      cleared false c s = s

      whole : Act Done
      whole = past_deadline w >>= λ expired. act (λ c. if expired then utc_clear_pending w c else c)

      go : (c : Core0) → IsSound c → (b : Bool) → IsSound (if b then whole c else (ok tt, c)).1
      go c s true =
          (bind-Keeps IsSound past_deadline-Safe λ expired. plain _ (cleared expired)).at c s
      go c s false = s

  should_send-IsSound : (c : Core0) → IsSound c → IsSound (utc_should_send_request w c).1
  unfolding utc_should_send_request utc_sync_due uptime_ms now
  should_send-IsSound c s = go (is_some c.pending_utc_request_id)
    where
      due : (o : Option UtcSnapshot) → IsSound (due_by w o c).1
      due none = s
      due (some snapshot) = s

      attempt : (o : Option ℕ) (c : Core0) → IsSound c → IsSound (attempt_due w o c).1
      attempt none c s = s
      attempt (some last) c s = s

      both : (r : Bool × Core0) → IsSound r.1 → IsSound (and_attempt_due w r).1
      both (true, c) s = attempt c.utc_last_attempt_ms c s
      both (false, c) s = s

      guarded : Bool → Bool × Core0
      guarded b = if b then (false, c) else and_attempt_due w (due_by w c.utc_snapshot c)

      go : (b : Bool) → IsSound (guarded b).1
      go true = s
      go false = both (due_by w c.utc_snapshot c) (due c.utc_snapshot)

  pub request-Safe : Safe (request_time_if_due w)
  unfolding request_time_if_due
  request-Safe = record { at = λ c s. go c s (is_connected c.mqtt) }
    where
      send_if_ready : Act Done
      send_if_ready = asking (mqtt_publish_ready w) >>= λ ready. when ready (utc_send_request w)

      whole : Act Done
      whole = asking (utc_should_send_request w) >>= λ due. when due send_if_ready

      whole-Safe : Safe whole
      whole-Safe = bind-Keeps IsSound (asking-Safe w _ should_send-IsSound) λ due. when-Safe w due (
          bind-Keeps IsSound (asking-Safe w _ (ready-IsSound w))
            λ ready. when-Safe w ready send-Safe)

      go : (c : Core0) → IsSound c → (b : Bool) → IsSound (if b then whole c else (ok tt, c)).1
      go c s true = whole-Safe.at c s
      go c s false = s
