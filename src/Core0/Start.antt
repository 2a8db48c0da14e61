-- ===== src/Core0/Start.antt =====
-- core0.py: start(), with its probes and the first synchronization. Waits run on fuel.
use pico_dualcore.Prelude.{
  ℕ, zero, suc, Bool, true, false, Option, none, some, [], ◌∷◌, if◌then◌else◌, is_some,
}
use pico_dualcore.Value.{Value, int_value, str_value, dict_value}
use pico_dualcore.LedManager.{set_connecting}
use pico_dualcore.MqttClient.Socket.{Bytes}
use pico_dualcore.MqttClient.{next_packet_id}
use pico_dualcore.Mqtt.{is_connected, mark_disconnected, wifi_lost}
use pico_dualcore.Mqtt as Session
use pico_dualcore.Core0.World.{World}
use pico_dualcore.Core0.State.{
  Core0, transport, out_of_fuel, Result, ok, raise, Act, Done, pure, throw, act, ◌>>=◌, ◌>>◌,
}
use pico_dualcore.Core0.Basics.{object, now, uptime_ms}
use pico_dualcore.Core0.Info.{publish_utc_snapshot}
use pico_dualcore.Core0.Publish.{exchange, mqtt_publish_ready, note_mqtt_publish_completed}
use pico_dualcore.Core0.Service.{sleep_and_service}
use pico_dualcore.Core0.Utc.{utc_send_request, past_deadline, publish_network_snapshot, text_bytes}
use pico_dualcore.Core0.Info.{utc_clear_pending}
use pico_dualcore.Core0.Network.{last_of, asking, establish_network, set_ready, lights_off}

module _ (w : World) where
  unfoldable pub wait_for_mqtt_publish_slot : ℕ → Act Done
  unfolding mqtt_publish_ready
  wait_for_mqtt_publish_slot zero = throw out_of_fuel
  wait_for_mqtt_publish_slot (suc fuel) =
      let again = wait_for_mqtt_publish_slot fuel in
      (do ready ← asking (mqtt_publish_ready w); if ready then pure tt else again)

  -- get_next_packet_id, by the counter of the client.
  abbrev next_id : Core0 → ℕ × Core0
  next_id c = elim c.mqtt.client [
    | none ↦ (1, c)
    | some link ↦
        (let pid = next_packet_id link.pid in
          (pid, record c { mqtt = record c.mqtt { client = some (record link { pid = pid }) } }))
  ]

  abbrev probe_value : ℕ → ℕ → Value
  probe_value u packet_id = dict_value (
      object (
        ("message_type", str_value "network_probe")
        ∷ ("runtime_id", str_value w.runtime_id)
        ∷ ("uptime_ms", int_value u)
        ∷ ("packet_id", int_value packet_id)
        ∷ []))

  abbrev probed : Result Bool × Core0 → Result Bool × Core0
  probed (ok true, c) = (ok true, note_mqtt_publish_completed w c)
  probed (raise transport, c) = (ok false, c)
  probed r = r

  unfoldable pub publish_probe : ℕ → Bytes → Act Bool
  unfolding exchange now note_mqtt_publish_completed
  publish_probe packet_id body c =
      let (t, c') = now w c in
      probed (
        exchange w
          (Session.publish_qos1_with_packet_id w.settings t
            (w.encode w.config.mqtt_topic_network_probe) body packet_id true)
          c')

  abbrev counting : (Core0 → ℕ × Core0) → Act ℕ
  counting f c = let (n, c') = f c in (ok n, c')

  unfoldable pub perform_network_probe : ℕ → Act Bool
  unfolding wait_for_mqtt_publish_slot uptime_ms publish_probe
  perform_network_probe fuel = do
    wait_for_mqtt_publish_slot fuel
    packet_id ← counting next_id
    u ← counting (uptime_ms w)
    body ← text_bytes w (w.json_dumps (probe_value u packet_id))
    publish_probe packet_id body

  abbrev utc_pending : Core0 → Bool
  utc_pending c = is_some c.pending_utc_request_id

  abbrev pumped : Act Done → Result (Option ℕ) × Core0 → Result Done × Core0
  pumped again (ok a, c) = again c
  pumped again (raise transport, c) = (ok tt, c)
  pumped again (raise e, c) = (raise e, c)

  -- _utc_wait_response, without the last line.
  unfoldable pub utc_pump : ℕ → Act Done
  unfolding past_deadline exchange
  utc_pump zero = throw out_of_fuel
  utc_pump (suc fuel) =
      let again = utc_pump fuel in
      (λ c.
        if utc_pending c
        then (do
          expired ← past_deadline w
          if expired then pure tt else (λ c'. pumped again (
              exchange w (Session.check_msg w.settings (w.readable c'.moment))
                (record c' { moment = suc c'.moment }))))
            c
        else (ok tt, c))

  unfoldable pub utc_wait_response : ℕ → Act Done
  unfolding utc_pump utc_clear_pending
  utc_wait_response fuel = do utc_pump fuel; act (utc_clear_pending w)

  -- The attempts that are left.
  unfoldable pub synchronize_utc_required : ℕ → ℕ → Act Bool
  unfolding wait_for_mqtt_publish_slot utc_send_request utc_wait_response
  synchronize_utc_required fuel zero = pure false
  synchronize_utc_required fuel (suc n) =
      let again = synchronize_utc_required fuel n in
      (do
        wait_for_mqtt_publish_slot fuel
        utc_send_request w
        utc_wait_response fuel
        λ c. if is_some c.utc_snapshot then (ok true, c) else again c)

  abbrev both : Act Bool → Act Bool → Act Bool
  both m n = do b ← m; if b then n else pure false

  -- _verify_startup_contract: three attempts at the time.
  unfoldable pub verify_startup_contract : ℕ → Act Bool
  unfolding perform_network_probe synchronize_utc_required
  verify_startup_contract fuel =
      both (perform_network_probe fuel)
        (both (perform_network_probe fuel) (synchronize_utc_required fuel 3))

  unfoldable pub verify_until_clean : ℕ → ℕ → Act Done
  unfolding verify_startup_contract sleep_and_service establish_network
  verify_until_clean fuel zero = throw out_of_fuel
  verify_until_clean fuel (suc n) =
      let again = verify_until_clean fuel n in
      (do
        clean ← verify_startup_contract fuel
        if clean then pure tt else (do
          sleep_and_service w (last_of w.config.mqtt_reconnect_delays_sec)
          act (λ c. record c { mqtt = mark_disconnected none c.mqtt })
          establish_network w fuel
          again))

  unfoldable pub start : ℕ → ℕ → Act Done
  unfolding establish_network verify_until_clean publish_utc_snapshot publish_network_snapshot
  start fuel passes = do
    act (λ c. record c { led = set_connecting true c.led })
    establish_network w fuel
    verify_until_clean fuel passes
    act (λ c. publish_utc_snapshot w c.utc_snapshot c)
    act (set_ready w true)
    act (publish_network_snapshot w true)
    act (lights_off w)
    act (λ c. record c { wdt_armed = w.has_wdt })
