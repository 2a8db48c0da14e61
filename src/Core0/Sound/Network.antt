-- ===== src/Core0/Sound/Network.antt =====
-- core0.py: the recovery of the network keeps the bounds.
use pico_dualcore.Prelude.{ℕ, zero, suc, Bool, true, false, ◌&&◌, none, if◌then◌else◌}
use pico_dualcore.Mqtt.{Mqtt, Session, is_transport, is_connected}
use pico_dualcore.Mqtt as Session
use pico_dualcore.Core0.World.{World}
use pico_dualcore.Core0.State.{Core0, out_of_fuel, Result, ok, Act, Done, ◌>>=◌}
use pico_dualcore.Core0.Basics.{now}
use pico_dualcore.Core0.Keeps.{pure-Keeps, throw-Keeps, bind-Keeps, then-Keeps, if-Keeps}
use pico_dualcore.Core0.Sound.{IsSound, on_mqtt_message-IsSound}
use pico_dualcore.Core0.Sound.Service.{slices-Safe}
use pico_dualcore.Core0.Sound.Publish.{Bounds, Safe, plain, settled-Safe}
use pico_dualcore.Core0.Network.{
  wifi_is_connected, connect_wifi, connect_mqtt, establish_wifi, establish_mqtt, establish_network,
  recover_network_if_needed, or_retry, drop_if_down, recovery,
}
use pico_dualcore.Core0.Utc.{store_network_snapshot, publish_network_snapshot, snapshot_due}
use pico_dualcore.Core0.Sound.Reboot.{sleep-Safe, asking-Safe}

module _ (w : World) where
  connect_mqtt-Safe : Safe (connect_mqtt w)
  unfolding connect_mqtt now
  connect_mqtt-Safe = record {
    at = λ c s.
        (settled-Safe w Bounds (on_mqtt_message-IsSound w) (slices-Safe w) _
            (record c.mqtt { client = none })
            (Session.connect w.settings (w.socket (suc c.moment)) (w.ticks_ms c.moment) c.mqtt)).at
          (record c { moment = suc c.moment }) s;
  }

  connect_wifi-Safe : Safe (connect_wifi w)
  unfolding connect_wifi
  connect_wifi-Safe = record {
    at = λ c s. (then-Keeps IsSound (slices-Safe w _) (pure-Keeps IsSound _)).at _ s;
  }

  establish_wifi-Safe : (fuel : ℕ) → Safe (establish_wifi w fuel)
  unfolding establish_wifi wifi_is_connected
  establish_wifi-Safe zero = throw-Keeps IsSound out_of_fuel
  establish_wifi-Safe (suc fuel) = bind-Keeps IsSound (asking-Safe w _ (λ c s. s)) λ up.
      if-Keeps IsSound up (pure-Keeps IsSound tt) (
        bind-Keeps IsSound connect_wifi-Safe λ connected.
          if-Keeps IsSound connected (pure-Keeps IsSound tt)
            (then-Keeps IsSound (sleep-Safe w _) (establish_wifi-Safe fuel)))

  or_retry-Safe : {again : Act Done} → Safe again → (b : Bool) → Safe (or_retry w again b)
  or_retry-Safe k true = pure-Keeps IsSound tt
  or_retry-Safe k false = then-Keeps IsSound (sleep-Safe w _) k

  establish_mqtt-Safe : (fuel : ℕ) → Safe (establish_mqtt w fuel)
  unfolding establish_mqtt
  establish_mqtt-Safe zero = throw-Keeps IsSound out_of_fuel
  establish_mqtt-Safe (suc fuel) = go (establish_mqtt-Safe fuel)
    where
      attempt : Act Done
      attempt = connect_mqtt w >>= or_retry w (establish_mqtt w fuel)

      guarded : Core0 → Bool → Result Done × Core0
      guarded c b = if b then (ok tt, c) else attempt c

      go : Safe (establish_mqtt w fuel) → Safe (λ c. guarded c (is_connected c.mqtt))
      go k = record { at = λ c s. tried c s (is_connected c.mqtt) }
        where
          tried : (c : Core0) → IsSound c → (b : Bool) → IsSound (guarded c b).1
          tried c s true = s
          tried c s false = (bind-Keeps IsSound connect_mqtt-Safe (or_retry-Safe k)).at c s

  establish_network-Safe : (fuel : ℕ) → Safe (establish_network w fuel)
  unfolding establish_network
  establish_network-Safe fuel =
      then-Keeps IsSound (plain _ (λ c s. s))
        (then-Keeps IsSound (establish_wifi-Safe fuel) (establish_mqtt-Safe fuel))

  pub snapshot-IsSound :
      (force : Bool) (c : Core0) → IsSound c → IsSound (publish_network_snapshot w force c)
  unfolding publish_network_snapshot store_network_snapshot now
  snapshot-IsSound force c s =
      go (snapshot_due w force (w.ticks_ms c.moment) c.last_network_snapshot_ms)
    where
      taken : Core0
      taken = store_network_snapshot w (w.ticks_ms c.moment) (record c { moment = suc c.moment })

      go : (b : Bool) → IsSound (if b then taken else record c { moment = suc c.moment })
      go true = s
      go false = s

  drop-IsSound : (b : Bool) (c : Core0) → IsSound c → IsSound (drop_if_down w b c)
  drop-IsSound true c s = s
  drop-IsSound false c s = s

  recovery-Safe : (fuel : ℕ) → Safe (recovery w fuel)
  unfolding recovery wifi_is_connected
  recovery-Safe fuel = then-Keeps IsSound (plain _ (λ c s. s)) (
      bind-Keeps IsSound (asking-Safe w _ (λ c s. s)) λ up.
        then-Keeps IsSound (plain _ (drop-IsSound up)) (
          then-Keeps IsSound (plain _ (snapshot-IsSound true)) (
            then-Keeps IsSound (establish_network-Safe fuel) (
              then-Keeps IsSound (plain _ (λ c s. s))
                (then-Keeps IsSound (plain _ (λ c s. s)) (plain _ (snapshot-IsSound true)))))))

  pub recover-Safe : (fuel : ℕ) → Safe (recover_network_if_needed w fuel)
  unfolding recover_network_if_needed wifi_is_connected
  recover-Safe fuel =
      bind-Keeps IsSound (asking-Safe w _ (λ c s. s))
        λ up. record { at = λ c s. go c s (up && is_connected c.mqtt) }
    where
      guarded : Core0 → Bool → Result Done × Core0
      guarded c b = if b then (ok tt, c) else recovery w fuel c

      go : (c : Core0) → IsSound c → (b : Bool) → IsSound (guarded c b).1
      go c s true = s
      go c s false = (recovery-Safe fuel).at c s
