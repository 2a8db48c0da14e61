-- ===== src/Mqtt/Reconnect.antt =====
-- The attempts to connect.
use pico_dualcore.Prelude.{
  ℕ, zero, suc, Bool, true, false, none, some, List, [], ◌∷◌, ◌≡◌, refl, sym, ap, subst,
  if◌then◌else◌, arith,
}
use pico_dualcore.MqttClient.Socket.{
  Io, Link, Outcome, returned, raised, Raised, mqtt_exception, os_error, callback_error,
  out_of_fuel, go_on, ◌>>=◌, ◌>>◌, settimeout, change_mode,
}
use pico_dualcore.MqttClient.Send
use pico_dualcore.Mqtt.{
  Mqtt, Session, Settings, wait_for_next, attempt_failed, attempt_outcome, connect_attempts,
  handshake, connect,
}
use pico_dualcore.Mqtt.Sound.{IsSound, Ready, one}

-- If the action returned, the socket has no timeout.
abbrev Untimed : Outcome (Unit {0}) × Link → Type 0
Untimed (returned u, k) = k.timed ≡ false
Untimed (raised e, k) = Unit

bind-Untimed :
    {A : Type 0} (m : Io A) (f : A → Io (Unit {0}))
    → ((a : A) (k : Link) → Untimed (f a k))
    → (l : Link) → Untimed ((m >>= f) l)
bind-Untimed {A} m f h l = go (m l)
  where
    go : (r : Outcome A × Link) → Untimed (go_on f r)
    go (returned a, k) = h a k
    go (raised e, k) = tt

settimeout-Untimed : (l : Link) → Untimed (settimeout false l)
unfolding settimeout
settimeout-Untimed l = go l.mode_changes
  where
    go : (n : ℕ) → Untimed (change_mode n false l)
    go zero = tt
    go (suc n) = refl

handshake-Untimed :
    (settings : Settings) (reachable : Bool) (l : Link) → Untimed (handshake settings reachable l)
unfolding handshake
handshake-Untimed settings reachable l =
    let first = Send.subscribe settings.message_callback settings.command_topic in
    let second = Send.subscribe settings.message_callback settings.info_response_topic in
    bind-Untimed (Send.connect reachable settings.client_id settings.keepalive true true)
      (λ u. first >> (second >> settimeout false))
      (λ a.
        bind-Untimed first (λ u. second >> settimeout false)
          (λ u. bind-Untimed second (λ u. settimeout false) (λ u. settimeout-Untimed)))
      l

lowered :
    (s : Mqtt) (k : Link)
    → s.connect_count ≡ s.disconnect_count
    → s.connected ≡ false
    → IsSound (record s { client = some k })
lowered s k counts low = record {
  counts = let z : one s.connected ≡ 0 = ap one low in omega arith;
  ready = subst (λ b. Ready b (some k)) (sym low) tt;
}

attempt_outcome-IsSound :
    (again : Raised → Link → Session Bool) (now : ℕ) (s : Mqtt) (r : Outcome (Unit {0}) × Link)
    → s.connect_count ≡ s.disconnect_count
    → s.connected ≡ false
    → Untimed r
    → ((e : Raised) (k : Link) → IsSound (again e k).1)
    → IsSound (attempt_outcome again now s r).1
unfolding attempt_outcome
attempt_outcome-IsSound again now s (returned u, k) counts low mode h = record {
  counts = omega arith;
  ready = mode;
}
attempt_outcome-IsSound again now s (raised mqtt_exception, k) counts low mode h =
    h mqtt_exception k
attempt_outcome-IsSound again now s (raised os_error, k) counts low mode h = h os_error k
attempt_outcome-IsSound again now s (raised callback_error, k) counts low mode h =
    lowered s k counts low
attempt_outcome-IsSound again now s (raised out_of_fuel, k) counts low mode h =
    lowered s k counts low

failed-IsSound :
    (e : Raised) (delay_sec : ℕ) (delays : List ℕ) (s : Mqtt)
    → s.connect_count ≡ s.disconnect_count
    → s.connected ≡ false
    → let t = wait_for_next delay_sec delays (attempt_failed e s) in
      (t.connect_count ≡ t.disconnect_count) × (t.connected ≡ false)
unfolding wait_for_next attempt_failed
failed-IsSound e delay_sec [] s counts low = (same s.connected low, refl)
  where
    same :
        (b : Bool)
        → b ≡ false
        → s.connect_count ≡ (if b then suc s.disconnect_count else s.disconnect_count)
    same true h = cc
    same false h = counts
failed-IsSound e delay_sec (d ∷ delays) s counts low = (same s.connected low, refl)
  where
    same :
        (b : Bool)
        → b ≡ false
        → s.connect_count ≡ (if b then suc s.disconnect_count else s.disconnect_count)
    same true h = cc
    same false h = counts

connect_attempts-IsSound :
    (settings : Settings) (socket : ℕ → Bool × Link) (now k : ℕ) (delays : List ℕ) (s : Mqtt)
    → s.connect_count ≡ s.disconnect_count
    → s.connected ≡ false
    → IsSound (connect_attempts settings socket now k delays s).1
unfolding connect_attempts
connect_attempts-IsSound settings socket now k [] s counts low = record {
  counts = let z : one s.connected ≡ 0 = ap one low in omega arith;
  ready = subst (λ b. Ready b s.client) (sym low) tt;
}
connect_attempts-IsSound settings socket now k (delay_sec ∷ delays) s counts low =
    attempt_outcome-IsSound _ now s (handshake settings (socket k).0 (socket k).1) counts low
      (handshake-Untimed settings (socket k).0 (socket k).1)
      (λ e link.
        let (c, d) =
          failed-IsSound e delay_sec delays (record s { client = some link }) counts low in
        connect_attempts-IsSound settings socket now (suc k) delays _ c d)

-- connect on a session that is down and sound leaves it sound, whatever becomes of each of its
-- sockets: up with a socket that has no timeout and one connection counted, or down with none counted.
pub connect-IsSound :
    (settings : Settings) (socket : ℕ → Bool × Link) (now : ℕ) (s : Mqtt)
    → IsSound s
    → s.connected ≡ false
    → IsSound (connect settings socket now s).1
unfolding connect
connect-IsSound settings socket now s h low =
    connect_attempts-IsSound settings socket now 0 settings.reconnect_delays
      (record s { last_connect_error = none })
      (let z : one s.connected ≡ 0 = ap one low in let c = h.counts in omega arith) low
