-- ===== src/Core0/Network.antt =====
-- core0.py: the network is established and recovered. A wait that the source does not bound runs on fuel.
use pico_dualcore.Prelude.{
  ℕ, zero, suc, ◌+◌, ◌-◌, Bool, true, false, ◌&&◌, none, some, List, [], ◌∷◌, if◌then◌else◌,
}
use pico_dualcore.LedManager.{set_connecting}
use pico_dualcore.Wifi as Wifi
use pico_dualcore.Wifi.{reads, os_error}
use pico_dualcore.Mqtt.{is_connected, mark_disconnected, wifi_lost}
use pico_dualcore.Mqtt as Session
use pico_dualcore.Core0.World.{World}
use pico_dualcore.Core0.State.{
  Core0, transport, out_of_fuel, Result, ok, raise, Act, Done, pure, throw, act, ◌>>=◌, ◌>>◌,
}
use pico_dualcore.Core0.Basics.{now}
use pico_dualcore.Core0.Publish.{settled}
use pico_dualcore.Core0.Service.{slices, sleep_and_service}
use pico_dualcore.Core0.Utc.{publish_network_snapshot}

-- [-1]
abbrev pub last_of : List ℕ → ℕ
last_of [] = 0
last_of (d ∷ []) = d
last_of (d ∷ (d' ∷ ds)) = last_of (d' ∷ ds)

-- `except MQTT_TRANSPORT_ERRORS`, where nothing but a message follows.
abbrev pub shrug : {A : Type 0} → Result A × Core0 → Result Done × Core0
shrug (ok a, c) = (ok tt, c)
shrug (raise transport, c) = (ok tt, c)
shrug (raise e, c) = (raise e, c)

abbrev pub asking : (Core0 → Bool × Core0) → Act Bool
asking f c = let (b, c') = f c in (ok b, c')

abbrev pub when : Bool → Act Done → Act Done
when b m = if b then m else pure tt

module _ (w : World) where
  abbrev is_up : Wifi.Answer → Bool
  is_up (reads b) = b
  is_up os_error = false

  unfoldable pub wifi_is_connected : Core0 → Bool × Core0
  wifi_is_connected c =
      (is_up (w.radio.isconnected c.wifi.reads_done), record c { wifi = Wifi.counted_read c.wifi })

  -- The service hook runs once for each slice slept.
  unfoldable pub connect_wifi : Act Bool
  unfolding slices
  connect_wifi c =
      let (up, s) = Wifi.connect w.radio w.config.wifi_reconnect_delays_sec c.wifi in
      (do slices w (s.slices - c.wifi.slices); pure up) (record c { wifi = s })

  -- On a new client, all of whose messages are new; the service hook runs in the handshakes, and once for
  -- each slice slept between the attempts.
  unfoldable pub connect_mqtt : Act Bool
  unfolding settled now
  connect_mqtt c =
      let (t, c') = now w c in
      let r = Session.connect w.settings (w.socket c'.moment) t c'.mqtt in
      settled w (w.hook_calls c'.moment + (r.1.slices - c'.mqtt.slices))
        (record c'.mqtt { client = none }) r c'

  unfoldable pub establish_wifi : ℕ → Act Done
  unfolding wifi_is_connected connect_wifi sleep_and_service
  establish_wifi zero = throw out_of_fuel
  establish_wifi (suc fuel) =
      let again = establish_wifi fuel in
      (do
        up ← asking wifi_is_connected
        if up then pure tt else (do
          connected ← connect_wifi
          if connected
              then pure tt
              else (do sleep_and_service w (last_of w.config.wifi_reconnect_delays_sec); again)))

  -- What follows an attempt on the session.
  abbrev pub or_retry : Act Done → Bool → Act Done
  or_retry again true = pure tt
  or_retry again false = do sleep_and_service w (last_of w.config.mqtt_reconnect_delays_sec); again

  unfoldable pub establish_mqtt : ℕ → Act Done
  unfolding connect_mqtt sleep_and_service
  establish_mqtt zero = throw out_of_fuel
  establish_mqtt (suc fuel) =
      let again = establish_mqtt fuel in
      (λ c.
        if is_connected c.mqtt
        then (ok tt, c)
        else (do connected ← connect_mqtt; or_retry again connected) c)

  unfoldable pub establish_network : ℕ → Act Done
  unfolding establish_wifi establish_mqtt
  establish_network fuel = do
    act (λ c. record c { led = set_connecting true c.led })
    establish_wifi fuel
    establish_mqtt fuel

  abbrev pub set_ready : Bool → Core0 → Core0
  set_ready b c = record c { network_stack_ready = b }

  abbrev pub lights_off : Core0 → Core0
  lights_off c = record c { led = set_connecting false c.led }

  -- The loss of Wi-Fi implies that of the session.
  abbrev pub drop_if_down : Bool → Core0 → Core0
  drop_if_down true c = c
  drop_if_down false c = record c { mqtt = mark_disconnected (some wifi_lost) c.mqtt }

  unfoldable pub recovery : ℕ → Act Done
  unfolding establish_network publish_network_snapshot wifi_is_connected
  recovery fuel = do
    act (set_ready false)
    up ← asking wifi_is_connected
    act (drop_if_down up)
    act (publish_network_snapshot w true)
    establish_network fuel
    act (set_ready true)
    act lights_off
    act (publish_network_snapshot w true)

  unfoldable pub recover_network_if_needed : ℕ → Act Done
  unfolding recovery wifi_is_connected
  recover_network_if_needed fuel = do
    up ← asking wifi_is_connected
    λ c. if up && is_connected c.mqtt then (ok tt, c) else recovery fuel c
