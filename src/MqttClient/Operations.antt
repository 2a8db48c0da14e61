-- ===== src/MqttClient/Operations.antt =====
-- The operations of the client as a whole: they end, they feed before they block, they bound what they
-- read, and they put the socket back into its mode.
use pico_dualcore.Prelude.{
  ℕ, suc, ◌≤◌, Bool, true, false, Option, none, some, [], ◌∷◌, ◌≡◌, ◌∙◌, ltb, length, arith, All,
}
use pico_dualcore.MqttClient.Socket.{
  Bytes, Link, Outcome, mqtt_exception, pure, serviced_write, send_str, advance_packet_id,
}
use pico_dualcore.MqttClient.Receive.{Callback, wait_msg}
use pico_dualcore.MqttClient.Send.{
  packet_id_or_next, or_too_big, publish, subscribe, ping, check_msg,
}
use pico_dualcore.MqttClient.Tame.{
  Tame, bind, choice, pure-Tame, fail-Tame, serviced_write-Tame, send_str-Tame,
  advance_packet_id-Tame,
}
use pico_dualcore.MqttClient.Tame.Packet.{wait_msg-Tame}
use pico_dualcore.MqttClient.Bounded.{
  exchange-Tame, await_suback-Below, await_pingresp-Below, Kept, Calm, Run-Kept, Tame-Calm,
  bind-Calm, with_timeout-Calm,
}

or_too_big-Tame : (o : Option Bytes) → Tame (or_too_big o)
or_too_big-Tame none = fail-Tame Bytes mqtt_exception tt
or_too_big-Tame (some header) = pure-Tame header

packet_id_or_next-Tame : (o : Option ℕ) → Tame (packet_id_or_next o)
packet_id_or_next-Tame none = advance_packet_id-Tame
packet_id_or_next-Tame (some pid) = pure-Tame pid

pub publish-Calm :
    (raises : Callback) (topic msg : Bytes) (packet_id : Option ℕ) (timed : Bool)
    (splice_fragment : Option Bytes)
    → Calm (publish raises topic msg packet_id timed splice_fragment)
unfolding publish
publish-Calm raises topic msg packet_id timed splice_fragment =
    bind-Calm (or_too_big _) _ (or_too_big-Tame _) (λ header.
      bind-Calm (packet_id_or_next packet_id) _ (packet_id_or_next-Tame packet_id) (λ pid.
        with_timeout-Calm timed _ (exchange-Tame raises header topic msg pid splice_fragment)))

pub subscribe-Tame : (raises : Callback) (topic : Bytes) → Tame (subscribe raises topic)
unfolding subscribe
subscribe-Tame raises topic =
    choice (ltb 122 (length topic)) _ _ (fail-Tame (Unit {0}) mqtt_exception tt) (
      bind advance_packet_id _ advance_packet_id-Tame (λ pid.
        bind (serviced_write _) _ (serviced_write-Tame _) (λ u.
          bind (send_str topic) _ (send_str-Tame topic) (λ u.
            bind (serviced_write (1 ∷ [])) _ (serviced_write-Tame _)
              (λ u l. await_suback-Below (suc (length l.inbound)) raises pid l (omega arith))))))

pub ping-Calm : (raises : Callback) (timed : Bool) → Calm (ping raises timed)
unfolding ping
ping-Calm raises timed = with_timeout-Calm timed _ (
    bind (serviced_write (192 ∷ 0 ∷ [])) _ (serviced_write-Tame _)
      (λ u l. await_pingresp-Below (suc (length l.inbound)) raises l (omega arith)))

pub check_msg-Calm : (raises : Callback) (ready : Bool) → Calm (check_msg raises ready)
unfolding check_msg
check_msg-Calm raises true = with_timeout-Calm true (wait_msg raises) (wait_msg-Tame raises)
check_msg-Calm raises false = Tame-Calm (pure none) (pure-Tame {A = Option ℕ} none)

-- With a socket that changes its mode twice, publish, ping and check_msg leave it without a timeout, as
-- they found it, whether they return or raise.
pub mode_restored :
    (raises : Callback) (topic msg : Bytes) (packet_id : Option ℕ) (timed ready : Bool)
    (splice_fragment : Option Bytes) (l : Link)
    → l.timed ≡ false
    → 2 ≤ l.mode_changes
    → ((publish raises topic msg packet_id timed splice_fragment l).1.timed ≡ false)
      × ((ping raises timed l).1.timed ≡ false)
      × ((check_msg raises ready l).1.timed ≡ false)
mode_restored raises topic msg packet_id timed ready splice_fragment l h n = (
  (publish-Calm raises topic msg packet_id timed splice_fragment l).restored h n,
  (ping-Calm raises timed l).restored h n,
  (check_msg-Calm raises ready l).restored h n,
)

-- No blocking operation went without a feed, and no read asked for more than 20480 bytes.
abbrev pub Fed : Link → Type 0
Fed l = (l.unfed ≡ false) × (l.largest ≤ 20480)

-- The service hook is called before each blocking read or write of an operation, and no read asks for
-- more than 20480 bytes, whatever lengths the broker declares.
pub operations_feed :
    (raises : Callback) (topic msg : Bytes) (packet_id : Option ℕ) (timed ready : Bool)
    (splice_fragment : Option Bytes) (l : Link)
    → l.unfed ≡ false
    → l.largest ≤ 20480
    → All Fed (
        (publish raises topic msg packet_id timed splice_fragment l).1
        ∷ (subscribe raises topic l).1
        ∷ (ping raises timed l).1
        ∷ (check_msg raises ready l).1
        ∷ [])
operations_feed raises topic msg packet_id timed ready splice_fragment l h b = (
  kept_fed (publish-Calm raises topic msg packet_id timed splice_fragment l),
  (
    kept_fed (Run-Kept l _ (subscribe-Tame raises topic l)),
    (kept_fed (ping-Calm raises timed l), (kept_fed (check_msg-Calm raises ready l), tt)),
  ),
)
  where
    kept_fed : {A : Type 0} {r : Outcome A × Link} → Kept l r → Fed r.1
    kept_fed k = (k.unfed ∙ h, let p = k.largest in omega arith)
