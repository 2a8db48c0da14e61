-- ===== src/Core0/Run.antt =====
-- core0.py: one pass of run().
use text.Mathlib.Text.{◌==◌ as str_eq}
use pico_dualcore.Prelude.{
  ℕ, suc, Bool, true, false, not, ◌&&◌, Option, none, some, List, [], ◌∷◌, if◌then◌else◌,
}
use pico_dualcore.Prelude.Int.{at_least}
use pico_dualcore.Intercore.Outbound.{Entry, OutboundQueue, kind_telemetry, kind_command_response}
use pico_dualcore.Intercore.Outbound.Lane.{take, complete_in_flight, has_in_flight}
use pico_dualcore.Mqtt.{is_connected, mark_disconnected, wifi_lost}
use pico_dualcore.Mqtt as Session
use pico_dualcore.Core0.World.{World}
use pico_dualcore.Core0.State.{
  Core0, Response, transport, too_large, Result, ok, raise, Act, Done, pure, act, ◌>>=◌, ◌>>◌,
}
use pico_dualcore.Core0.Basics.{now}
use pico_dualcore.Core0.Publish.{
  exchange, mqtt_publish_ready, publish_entry, claim_entry_sequence, topic_for_kind,
}
use pico_dualcore.Core0.Respond.{service_pending_core0_response, answer_discarded_command_response}
use pico_dualcore.Core0.Service.{feed_watchdog, watch_core_1_heartbeat}
use pico_dualcore.Core0.Reboot.{perform_reboot, reboot_publish_due}
use pico_dualcore.Core0.Utc.{
  utc_send_request, utc_request_expired, utc_should_send_request, publish_network_snapshot,
}
use pico_dualcore.Core0.Network.{shrug, asking, when, recover_network_if_needed}

module _ (w : World) where
  -- The poll for messages, every mqtt_command_poll_ms.
  unfoldable pub poll_commands : Act Done
  unfolding exchange now
  poll_commands c =
      let (t, c') = now w c in
      if at_least w.config.mqtt_command_poll_ms (w.ticks_diff t c'.last_command_poll_ms)
      then (do
        (λ c''. shrug (
            exchange w (Session.check_msg w.settings (w.readable c''.moment))
              (record c'' { moment = suc c''.moment })))
        act (λ c''. record c'' { last_command_poll_ms = t }))
          c'
      else (ok tt, c')

  unfoldable pub reboot_if_due : Act Done
  unfolding reboot_publish_due perform_reboot
  reboot_if_due = do
    due ← asking (reboot_publish_due w)
    when due (do done ← perform_reboot w; pure tt)

  abbrev pub has_responses : List Response → Bool
  has_responses [] = false
  has_responses (r ∷ rs) = true

  unfoldable pub respond_if_ready : Act Done
  unfolding mqtt_publish_ready service_pending_core0_response
  respond_if_ready c =
      if is_connected c.mqtt
        && (has_responses c.pending_core0_responses
            && not (has_in_flight c.intercore.outbound_queue))
      then (do
        ready ← asking (mqtt_publish_ready w)
        when ready (λ c'. shrug (service_pending_core0_response w c')))
          c
      else (ok tt, c)

  abbrev pub on_queue : {A : Type 0} → (OutboundQueue → A × OutboundQueue) → Core0 → A × Core0
  on_queue f c =
      let (a, q) = f c.intercore.outbound_queue in
      (a, record c { intercore = record c.intercore { outbound_queue = q } })

  abbrev pub complete : Entry → Bool → Core0 → Core0
  complete entry discarded c = (on_queue (complete_in_flight entry discarded) c).1

  -- What the publish of an entry comes to: it is completed; discarded, and a command answered; or kept.
  abbrev pub entry_published : Entry → Result Done × Core0 → Result Done × Core0
  entry_published entry (ok u, c) = (ok tt, complete entry false c)
  entry_published entry (raise too_large, c) =
      (if str_eq entry.kind kind_command_response
          then answer_discarded_command_response w entry
          else pure tt)
        (complete entry true c)
  entry_published entry (raise transport, c) = (ok tt, c)
  entry_published entry (raise e, c) = (raise e, c)

  abbrev pub ping_if_due : Act Done
  ping_if_due c =
      let (t, c') = now w c in
      if Session.ping_due w.settings (w.elapsed t c'.mqtt.last_activity_ms) c'.mqtt
      then (let (last, c'') = now w c' in shrug (exchange w (Session.ping w.settings last) c''))
      else (ok tt, c')

  abbrev pub publish_taken : Option Entry → Act Done
  publish_taken none c = ping_if_due c
  publish_taken (some entry) c = entry_published entry (
      publish_entry w (topic_for_kind w entry.kind) (str_eq entry.kind kind_telemetry)
        entry.payload_bytes (claim_entry_sequence entry.ident) c)

  abbrev pub take_if : Bool → Core0 → Option Entry × Core0
  take_if true c = on_queue take c
  take_if false c = (none, c)

  unfoldable pub publish_next : Act Done
  unfolding publish_entry mqtt_publish_ready answer_discarded_command_response exchange now
  publish_next c =
      if is_connected c.mqtt
      then (let (ready, c') = mqtt_publish_ready w c in
          let (taken, c'') = take_if ready c' in publish_taken taken c'')
      else (ok tt, c)

  unfoldable pub request_time_if_due : Act Done
  unfolding utc_should_send_request mqtt_publish_ready utc_send_request
  request_time_if_due c =
      if is_connected c.mqtt
      then (do
        due ← asking (utc_should_send_request w)
        when due (do ready ← asking (mqtt_publish_ready w); when ready (utc_send_request w)))
          c
      else (ok tt, c)

  unfoldable pub run_pass : ℕ → Act Done
  unfolding watch_core_1_heartbeat feed_watchdog reboot_if_due recover_network_if_needed
      poll_commands respond_if_ready publish_next publish_network_snapshot utc_request_expired
      request_time_if_due
  run_pass fuel = do
    watch_core_1_heartbeat w
    act (feed_watchdog w)
    reboot_if_due
    recover_network_if_needed w fuel
    poll_commands
    reboot_if_due
    respond_if_ready
    publish_next
    act (publish_network_snapshot w false)
    utc_request_expired w
    request_time_if_due
