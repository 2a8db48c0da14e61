-- ===== src/Core0/Sound/Pass.antt =====
-- core0.py: a whole pass of run() keeps the bounds.
use text.Mathlib.Text.{◌==◌ as str_eq}
use pico_dualcore.Prelude.{
  ℕ, arith, ◌∷◌, suc, Bool, true, false, not, ◌&&◌, Option, none, some, if◌then◌else◌,
}
use pico_dualcore.Prelude.Int.{at_least}
use pico_dualcore.Intercore.Outbound.{Entry, kind_command_response, kind_telemetry}
use pico_dualcore.Intercore.Outbound.Lane.{has_in_flight}
use pico_dualcore.Mqtt.{Mqtt, Session, is_transport, is_connected}
use pico_dualcore.Mqtt as Session
use pico_dualcore.Core0.World.{World}
use pico_dualcore.Core0.State.{
  Core0, transport, too_large, escape, Result, ok, raise, Act, Done, act, ◌>>=◌, ◌>>◌,
}
use pico_dualcore.Core0.Basics.{now}
use pico_dualcore.Core0.Publish.{
  exchange, mqtt_publish_ready, claim_entry_sequence, entry_claimed_by, entry_sequence,
  topic_for_kind,
}
use pico_dualcore.Core0.Respond.{service_pending_core0_response}
use pico_dualcore.Core0.Numbered.{Numbered-claim}
use pico_dualcore.Core0.Keeps.{pure-Keeps, bind-Keeps, then-Keeps, if-Keeps}
use pico_dualcore.Core0.Sound.{IsSound, on_mqtt_message-IsSound}
use pico_dualcore.Core0.Sound.Service.{slices-Safe, watch-Safe, feed-IsSound}
use pico_dualcore.Core0.Sound.Publish.{Bounds, Safe, plain, exchange-Safe, publish_entry-Safe}
use pico_dualcore.Core0.Network.{asking, when, shrug}
use pico_dualcore.Core0.Run.{
  poll_commands, respond_if_ready, publish_next, publish_taken, entry_published, ping_if_due,
  take_if, complete, run_pass, has_responses,
}
use pico_dualcore.Core0.Sound.Respond.{
  service_pending_core0_response-Safe, answer_discarded_command_response-Safe,
}
use pico_dualcore.Core0.Sound.Reboot.{asking-Safe, when-Safe, ready-IsSound, reboot_if_due-Safe}
use pico_dualcore.Core0.Sound.Utc.{expired-Safe, request-Safe}
use pico_dualcore.Core0.Sound.Network.{recover-Safe, snapshot-IsSound}

shrug-IsSound : {A : Type 0} (r : Result A × Core0) → IsSound r.1 → IsSound (shrug r).1
shrug-IsSound (ok a, c) s = s
shrug-IsSound (raise transport, c) s = s
shrug-IsSound (raise escape, c) s = s
shrug-IsSound (raise e, c) s = s

module _ (w : World) where
  poll-Safe : Safe (poll_commands w)
  unfolding poll_commands now
  poll-Safe = record {
    at = λ c s.
        go (record c { moment = suc c.moment }) s (w.ticks_ms c.moment)
          (at_least w.config.mqtt_command_poll_ms
            (w.ticks_diff (w.ticks_ms c.moment) c.last_command_poll_ms));
  }
    where
      checked : Act Done
      checked c = shrug (
          exchange w (Session.check_msg w.settings (w.readable c.moment))
            (record c { moment = suc c.moment }))

      checked-Safe : Safe checked
      checked-Safe = record {
        at = λ c s. shrug-IsSound _ (
            (exchange-Safe w Bounds (on_mqtt_message-IsSound w) (slices-Safe w)
                (Session.check_msg w.settings (w.readable c.moment))).at
              (record c { moment = suc c.moment }) s);
      }

      polled : ℕ → Act Done
      polled t = checked >> act (λ c''. record c'' { last_command_poll_ms = t })

      go :
          (c : Core0)
          → IsSound c
          → (t : ℕ) (b : Bool) → IsSound (if b then polled t c else (ok tt, c)).1
      go c s t true = (then-Keeps IsSound checked-Safe (plain _ (λ c' s'. s'))).at c s
      go c s t false = s

  respond-Safe : Safe (respond_if_ready w)
  unfolding respond_if_ready
  respond-Safe = record {
    at = λ c s. go c s (
        is_connected c.mqtt
        && (has_responses w c.pending_core0_responses
            && not (has_in_flight c.intercore.outbound_queue)));
  }
    where
      served : Safe (λ c. shrug (service_pending_core0_response w c))
      served = record {
        at = λ c s. shrug-IsSound _ ((service_pending_core0_response-Safe w).at c s);
      }

      whole : Act Done
      whole = asking (mqtt_publish_ready w) >>= λ ready.
          when ready (λ c. shrug (service_pending_core0_response w c))

      whole-Safe : Safe whole
      whole-Safe =
          bind-Keeps IsSound (asking-Safe w _ (ready-IsSound w)) λ ready. when-Safe w ready served

      go : (c : Core0) → IsSound c → (b : Bool) → IsSound (if b then whole c else (ok tt, c)).1
      go c s true = whole-Safe.at c s
      go c s false = s

  entry_published-IsSound :
      (entry : Entry) (r : Result Done × Core0)
      → IsSound r.1
      → IsSound (entry_published w entry r).1
  entry_published-IsSound entry (ok u, c) s = s
  entry_published-IsSound entry (raise too_large, c) s =
      (if-Keeps IsSound (str_eq entry.kind kind_command_response)
          (answer_discarded_command_response-Safe w entry) (pure-Keeps IsSound tt)).at
        (complete w entry true c) s
  entry_published-IsSound entry (raise transport, c) s = s
  entry_published-IsSound entry (raise escape, c) s = s
  entry_published-IsSound entry (raise e, c) s = s

  ping-Safe : Safe (ping_if_due w)
  unfolding now
  ping-Safe = record {
    at = λ c s.
        go (record c { moment = suc c.moment }) s
          (Session.ping_due w.settings (w.elapsed (w.ticks_ms c.moment) c.mqtt.last_activity_ms)
            c.mqtt);
  }
    where
      pinged : Core0 → Result Done × Core0
      pinged c = shrug (
          exchange w (Session.ping w.settings (w.ticks_ms c.moment))
            (record c { moment = suc c.moment }))

      go : (c : Core0) → IsSound c → (b : Bool) → IsSound (if b then pinged c else (ok tt, c)).1
      go c s true = shrug-IsSound _ (
          (exchange-Safe w Bounds (on_mqtt_message-IsSound w) (slices-Safe w)
              (Session.ping w.settings (w.ticks_ms c.moment))).at
            (record c { moment = suc c.moment }) s)
      go c s false = s

  entry_claim-Safe : (ident : ℕ) → Safe (claim_entry_sequence ident)
  unfolding claim_entry_sequence
  entry_claim-Safe ident = record { at = λ c s. go (entry_sequence ident c.entry_sequences) c s }
    where
      go : (o : Option ℕ) (c : Core0) → IsSound c → IsSound (entry_claimed_by ident o c).1
      go none c s = (
        s.0,
        s.1,
        s.2,
        s.3,
        s.4,
        s.5,
        Numbered-claim c.pending_core0_responses c.pending_core0_responses c.pending_reboot
            c.pending_reboot c.next_sequence c.entry_sequences
            ((ident, c.next_sequence) ∷ c.entry_sequences) (λ n. omega arith) s.6,
      )
      go (some sequence) c s = s

  publish_taken-Safe : (o : Option Entry) → Safe (publish_taken w o)
  publish_taken-Safe none = record { at = λ c s. ping-Safe.at c s }
  publish_taken-Safe (some entry) = record {
    at = λ c s. entry_published-IsSound entry _ (
        (publish_entry-Safe w Bounds (on_mqtt_message-IsSound w) (slices-Safe w)
            (topic_for_kind w entry.kind) (str_eq entry.kind kind_telemetry) entry.payload_bytes
            (claim_entry_sequence entry.ident) (entry_claim-Safe entry.ident)).at
          c s);
  }

  publish_next-Safe : Safe (publish_next w)
  unfolding publish_next
  publish_next-Safe = record { at = λ c s. go c s (is_connected c.mqtt) }
    where
      taken : Bool × Core0 → Option Entry × Core0
      taken (ready, c) = take_if w ready c

      published_from : Option Entry × Core0 → Result Done × Core0
      published_from (o, c) = publish_taken w o c

      take-IsSound : (r : Bool × Core0) → IsSound r.1 → IsSound (taken r).1
      take-IsSound (true, c) s = s
      take-IsSound (false, c) s = s

      go :
          (c : Core0)
          → IsSound c
          → (b : Bool)
          → IsSound (if b then published_from (taken (mqtt_publish_ready w c)) else (ok tt, c)).1
      go c s true =
          (publish_taken-Safe (taken (mqtt_publish_ready w c)).0).at _
            (take-IsSound (mqtt_publish_ready w c) (ready-IsSound w c s))
      go c s false = s

  run_pass-Safe : (fuel : ℕ) → Safe (run_pass w fuel)
  unfolding run_pass
  run_pass-Safe fuel = then-Keeps IsSound (watch-Safe w) (
      then-Keeps IsSound (plain _ (feed-IsSound w)) (
        then-Keeps IsSound (reboot_if_due-Safe w) (
          then-Keeps IsSound (recover-Safe w fuel) (
            then-Keeps IsSound poll-Safe (
              then-Keeps IsSound (reboot_if_due-Safe w) (
                then-Keeps IsSound respond-Safe (
                  then-Keeps IsSound publish_next-Safe (
                    then-Keeps IsSound (plain _ (snapshot-IsSound w false))
                      (then-Keeps IsSound (expired-Safe w) (request-Safe w))))))))))

-- A pass of run(), whatever arrives in its exchanges and however it ends, keeps the bounds of Core 0:
-- at most 16 ids in the cache, all different, at most 4 responses that wait, no id or name that is
-- kept over its limit, and no wire sequence on two of the waiting responses, the reboot and the entries
-- of the queue.
pub run_pass-IsSound :
    (w : World) (fuel : ℕ) (c : Core0) → IsSound c → IsSound (run_pass w fuel c).1
run_pass-IsSound w fuel c s = (run_pass-Safe w fuel).at c s
