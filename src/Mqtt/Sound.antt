-- ===== src/Mqtt/Sound.antt =====
-- The session's counts and the mode of its socket.
use pico_dualcore.Prelude.{
  ℕ, suc, ◌+◌, Bool, true, false, Option, none, some, ◌≡◌, refl, sym, subst, if◌then◌else◌, arith,
  ◌&&◌, is_some,
}
use pico_dualcore.MqttClient.Socket.{
  Bytes, Io, Link, Outcome, returned, raised, mqtt_exception, os_error, callback_error, out_of_fuel,
}
use pico_dualcore.MqttClient.Bounded.{Calm, Survives}
use pico_dualcore.MqttClient.Operations.{publish-Calm, ping-Calm, check_msg-Calm}
use pico_dualcore.MqttClient.Send
use pico_dualcore.Mqtt.{
  Mqtt, Session, Settings, Reason, mark_disconnected, guard, with_client, touch, check_msg,
  publish_qos1, publish_qos1_with_packet_id, answered, ping, is_connected, check_msg_failure,
  publish_failure, ping_timeout,
}

-- A session that is up has a client, whose socket has no timeout.
abbrev pub Ready : Bool → Option Link → Type 0
Ready false client = Unit
Ready true none = ⊥
Ready true (some link) = link.timed ≡ false

abbrev pub one : Bool → ℕ
one true = 1
one false = 0

-- Of the sessions that came up, all but the one that is up have gone down.
pub record IsSound (s : Mqtt) : Type 0 where
  pub counts : s.connect_count ≡ s.disconnect_count + one s.connected
  pub ready : Ready s.connected s.client

down : (b : Bool) (c d : ℕ) → c ≡ d + one b → c ≡ (if b then suc d else d) + 0
down true c d h = omega arith
down false c d h = omega arith

mark_disconnected-IsSound :
    (reason : Option Reason) (s : Mqtt) → IsSound s → IsSound (mark_disconnected reason s)
unfolding mark_disconnected
mark_disconnected-IsSound reason s h = record {
  counts = down s.connected s.connect_count s.disconnect_count h.counts;
  ready = tt;
}

-- The session with the client's link as an operation leaves it.
held :
    (s : Mqtt) (k : Link)
    → s.connected ≡ true
    → s.connect_count ≡ s.disconnect_count + one s.connected
    → k.timed ≡ false
    → IsSound (record s { client = some k })
held s k up counts mode = record {
  counts = counts;
  ready = subst (λ b. Ready b (some k)) (sym up) mode;
}

downed :
    (reason : Reason) (s : Mqtt) (k : Link)
    → s.connect_count ≡ s.disconnect_count + one s.connected
    → IsSound (mark_disconnected (some reason) (record s { client = some k }))
unfolding mark_disconnected
downed reason s k counts = record {
  counts = down s.connected s.connect_count s.disconnect_count counts;
  ready = tt;
}

guard-IsSound :
    {A : Type 0} (reason : Reason) (done : Mqtt → Mqtt) (s : Mqtt) (r : Outcome A × Link)
    → ((t : Mqtt) → IsSound t → IsSound (done t))
    → s.connected ≡ true
    → s.connect_count ≡ s.disconnect_count + one s.connected
    → (Survives r.0 → r.1.timed ≡ false)
    → IsSound (guard reason done s r).1
unfolding guard
guard-IsSound reason done s (returned a, k) keep up counts mode =
    keep _ (held s k up counts (mode tt))
guard-IsSound reason done s (raised mqtt_exception, k) keep up counts mode =
    downed reason s k counts
guard-IsSound reason done s (raised os_error, k) keep up counts mode = downed reason s k counts
guard-IsSound reason done s (raised callback_error, k) keep up counts mode =
    held s k up counts (mode tt)
guard-IsSound reason done s (raised out_of_fuel, k) keep up counts mode =
    held s k up counts (mode tt)

Ready-link :
    (s : Mqtt) (l : Link) → IsSound s → s.client ≡ some l → s.connected ≡ true → l.timed ≡ false
Ready-link s l h c up = subst (λ b. Ready b (some l)) up (subst (Ready s.connected) c h.ready)

with_client-IsSound :
    {A : Type 0} (down : Session A) (reason : Reason) (done : Mqtt → Mqtt) (m : Io A) (s : Mqtt)
    → IsSound s
    → IsSound down.1
    → ((t : Mqtt) → IsSound t → IsSound (done t))
    → Calm m
    → IsSound (with_client down reason done m s).1
unfolding with_client
with_client-IsSound {A} down reason done m s h low keep calm = go s.client s.connected refl refl
  where
    go :
        (c : Option Link) (b : Bool)
        → s.client ≡ c
        → s.connected ≡ b
        → IsSound
            (elim c as (λ x. Session A) [
              | none ↦ down
              | some link ↦ if b then guard reason done s (m link) else down
            ]).1
    go none b c up = low
    go (some l) false c up = low
    go (some l) true c up =
        guard-IsSound reason done s (m l) keep up h.counts
          (λ v. (calm l).settled v (Ready-link s l h c up))

touch-IsSound : (now : ℕ) (s : Mqtt) → IsSound s → IsSound (touch now s)
unfolding touch
touch-IsSound now s h = record { counts = h.counts; ready = h.ready }

answered_state : (r : Session (Unit {0})) → IsSound r.1 → IsSound (answered r).1
unfolding answered
answered_state (returned u, s) h = h
answered_state (raised mqtt_exception, s) h = h
answered_state (raised os_error, s) h = h
answered_state (raised callback_error, s) h = h
answered_state (raised out_of_fuel, s) h = h

-- A failure of the transport left the session down.
abbrev pub Downed : {A : Type 0} → Session A → Type 0
Downed (raised mqtt_exception, s) = s.connected ≡ false
Downed (raised os_error, s) = s.connected ≡ false
Downed (r, s) = Unit

-- The same for the operation that answers False then.
abbrev pub DownedAnswer : Session Bool → Type 0
DownedAnswer (returned false, s) = s.connected ≡ false
DownedAnswer (raised os_error, s) = s.connected ≡ false
DownedAnswer (raised mqtt_exception, s) = s.connected ≡ false
DownedAnswer (r, s) = Unit

guard-Downed :
    {A : Type 0} (reason : Reason) (done : Mqtt → Mqtt) (s : Mqtt) (r : Outcome A × Link)
    → Downed (guard reason done s r)
unfolding guard mark_disconnected
guard-Downed reason done s (returned a, k) = tt
guard-Downed reason done s (raised mqtt_exception, k) = refl
guard-Downed reason done s (raised os_error, k) = refl
guard-Downed reason done s (raised callback_error, k) = tt
guard-Downed reason done s (raised out_of_fuel, k) = tt

no_client : (b : Bool) (o : Option Link) → o ≡ none → Ready b o → b ≡ false
no_client false o e r = refl
no_client true none e r = absurd r
no_client true (some l) e r = cc

with_client-Downed :
    {A : Type 0} (down : Session A) (reason : Reason) (done : Mqtt → Mqtt) (m : Io A) (s : Mqtt)
    → IsSound s
    → (s.connected ≡ false → Downed down)
    → Downed (with_client down reason done m s)
unfolding with_client
with_client-Downed {A} down reason done m s h low = go s.client s.connected refl refl
  where
    go :
        (c : Option Link) (b : Bool)
        → s.client ≡ c
        → s.connected ≡ b
        → Downed (elim c as (λ x. Session A) [
          | none ↦ down
          | some link ↦ if b then guard reason done s (m link) else down
        ])
    go none b e up = low (no_client s.connected s.client e h.ready)
    go (some l) false e up = low up
    go (some l) true e up = guard-Downed reason done s (m l)

answered-DownedAnswer : (r : Session (Unit {0})) → Downed r → DownedAnswer (answered r)
unfolding answered
answered-DownedAnswer (returned u, s) h = tt
answered-DownedAnswer (raised mqtt_exception, s) h = h
answered-DownedAnswer (raised os_error, s) h = h
answered-DownedAnswer (raised callback_error, s) h = tt
answered-DownedAnswer (raised out_of_fuel, s) h = tt

not_up : (s : Mqtt) → IsSound s → is_connected s ≡ false → s.connected ≡ false
unfolding is_connected
not_up s h e = go s.connected s.client e h.ready
  where
    go : (b : Bool) (o : Option Link) → (b && is_some o) ≡ false → Ready b o → b ≡ false
    go false o e r = refl
    go true none e r = absurd r
    go true (some l) e r = cc

-- Sound, and down if the transport failed.
abbrev pub Kept : {A : Type 0} → Session A → Type 0
Kept r = IsSound r.1 × Downed r

with_client-Kept :
    {A : Type 0} (low : Outcome A) (reason : Reason) (done : Mqtt → Mqtt) (m : Io A) (s : Mqtt)
    → IsSound s
    → (s.connected ≡ false → Downed (low, s))
    → ((t : Mqtt) → IsSound t → IsSound (done t))
    → Calm m
    → Kept (with_client (low, s) reason done m s)
with_client-Kept low reason done m s h down keep calm = (
  with_client-IsSound (low, s) reason done m s h h keep calm,
  with_client-Downed (low, s) reason done m s h down,
)

-- The operations of a sound session leave it sound, whatever the link does: an operation that ends with
-- a failure of the transport, raised or, by publish_qos1_with_packet_id, answered with False, leaves
-- it down, its counts balance, and a session that stays up has a socket without a timeout.
pub session-IsSound :
    (settings : Settings) (ready timed : Bool) (now pid : ℕ) (topic message : Bytes)
    (splice_fragment : Option Bytes) (reason : Option Reason) (s : Mqtt)
    → IsSound s
    → Kept (check_msg settings ready s)
      × Kept (publish_qos1 settings now topic message splice_fragment s)
      × (IsSound (publish_qos1_with_packet_id settings now topic message pid timed s).1
          × DownedAnswer (publish_qos1_with_packet_id settings now topic message pid timed s))
      × Kept (ping settings now s)
      × IsSound (mark_disconnected reason s)
unfolding check_msg publish_qos1 publish_qos1_with_packet_id ping
session-IsSound settings ready timed now pid topic message splice_fragment reason s h =
    let publish = λ (packet_id : Option ℕ) (bounded : Bool) (fragment : Option Bytes).
      with_client-Kept (raised os_error) publish_failure (touch now)
        (Send.publish settings.message_callback topic message packet_id bounded fragment) s h
        (λ e. e) (touch-IsSound now)
        (publish-Calm settings.message_callback topic message packet_id bounded fragment) in
    (
      with_client-Kept (returned none) check_msg_failure (λ t. t)
          (Send.check_msg settings.message_callback ready) s h (λ e. tt) (λ t k. k)
          (check_msg-Calm settings.message_callback ready),
      publish none true splice_fragment,
      chosen (is_connected s) refl (answered _) (answered_state _ (publish (some pid) timed none).0)
          (answered-DownedAnswer _ (publish (some pid) timed none).1),
      with_client-Kept (raised os_error) ping_timeout (touch now)
          (Send.ping settings.message_callback true) s h (λ e. e) (touch-IsSound now)
          (ping-Calm settings.message_callback true),
      mark_disconnected-IsSound reason s h,
    )
  where
    chosen :
        (b : Bool)
        → is_connected s ≡ b
        → (x : Session Bool) → IsSound x.1
        → DownedAnswer x
        → IsSound (if b then x else (raised os_error, s)).1
          × DownedAnswer (if b then x else (raised os_error, s))
    chosen true e x a d = (a, d)
    chosen false e x a d = (h, not_up s h e)
