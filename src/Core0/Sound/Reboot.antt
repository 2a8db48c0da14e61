-- ===== src/Core0/Sound/Reboot.antt =====
-- core0.py: the service hook and the reboot keep the bounds.
use pico_dualcore.Prelude.{
  ℕ, ◌≡◌, refl, ap, arith, ◌*◌, Bool, true, false, ◌&&◌, ◌||◌, Option, none, some, if◌then◌else◌,
  is_some, ◌==◌,
}
use pico_dualcore.Prelude.Int.{at_least}
use pico_dualcore.Intercore.Outbound.Lane.{has_in_flight}
use pico_dualcore.Mqtt.{is_connected}
use pico_dualcore.Core0.World.{World}
use pico_dualcore.Core0.State.{
  Core0, RebootRequest, Stamps, Failure, transport, escape, Result, ok, raise, Act, Done,
}
use pico_dualcore.Core0.Basics.{now, command_error}
use pico_dualcore.Core0.Handlers.{command_reboot}
use pico_dualcore.Core0.Publish.{mqtt_publish_ready, ready_after}
use pico_dualcore.Core0.Keeps.{pure-Keeps, bind-Keeps, then-Keeps, if-Keeps}
use pico_dualcore.Core0.Sound.{IsSound, HasId, on_mqtt_message-IsSound}
use pico_dualcore.Core0.Sound.Publish.{Bounds, MayClaim, Safe, plain, publish_response-keeps}
use pico_dualcore.Core0.Publish.{claimed_by}
use pico_dualcore.Core0.Respond.{substitute_for}
use pico_dualcore.Core0.Sound.Service.{slices-Safe}
use pico_dualcore.Core0.Numbered.{is_at, in_reboot, Numbered-less, Numbered-claim}
use pico_dualcore.Core0.Service.{reset, sleep_and_service}
use pico_dualcore.Core0.Reboot.{
  perform_reboot, perform_request, unless, acknowledged, acknowledgement, queue_substitute,
  substitute_queued, marked, on_request, stamp_request, reboot_publish_due,
}
use pico_dualcore.Core0.Network.{asking, when}
use pico_dualcore.Core0.Run.{reboot_if_due}
use pico_dualcore.Core0.Sound.Respond.{substitute_for-IsBounded, queue-IsSound}

module _ (w : World) where
  pub sleep-Safe : (delay_sec : ℕ) → Safe (sleep_and_service w delay_sec)
  unfolding sleep_and_service
  sleep-Safe delay_sec = slices-Safe w (delay_sec * 10)

  reset-Safe : {A : Type 0} → Safe (reset w {A = A})
  unfolding reset
  reset-Safe = record { at = λ c s. s }

  -- The request keeps its id and its wire sequence.
  abbrev Keeping : (RebootRequest → RebootRequest) → Type 0
  Keeping f =
      (q : RebootRequest)
      → ((f q).command_id ≡ q.command_id) × ((f q).stamps.wire_sequence ≡ q.stamps.wire_sequence)

  on_request-HasId :
      (f : RebootRequest → RebootRequest)
      → Keeping f
      → (o : Option RebootRequest) → HasId o
      → HasId (on_request w f o)
  on_request-HasId f k none h = tt
  on_request-HasId f k (some q) h = rw (k q).0 h

  in_reboot-on_request :
      (f : RebootRequest → RebootRequest)
      → Keeping f
      → (n : ℕ) (o : Option RebootRequest) → in_reboot n (on_request w f o) ≡ in_reboot n o
  in_reboot-on_request f k n none = refl
  in_reboot-on_request f k n (some q) = ap (is_at n) (k q).1

  on_request-IsSound :
      (f : RebootRequest → RebootRequest)
      → Keeping f
      → (c : Core0) → IsSound c
      → IsSound (record c { pending_reboot = on_request w f c.pending_reboot })
  on_request-IsSound f k c s = (
    s.0,
    s.1,
    s.2,
    s.3,
    s.4,
    on_request-HasId f k c.pending_reboot s.5,
    Numbered-less c.pending_core0_responses c.pending_core0_responses c.pending_reboot _
        c.next_sequence c.entry_sequences
        (λ n. omega (arith, in_reboot-on_request f k n c.pending_reboot)) s.6,
  )

  request-MayClaim :
      (q : RebootRequest) (c : Core0)
      → c.pending_reboot ≡ some q
      → IsSound c
      → MayClaim Bounds (stamp_request w) (acknowledgement w q) c
  request-MayClaim q c e s = go q.stamps.wire_sequence refl
    where
      named :
          (t : Stamps) (o : Option RebootRequest)
          → HasId o
          → HasId (on_request w (λ q. record q { stamps = t }) o)
      named t none h = tt
      named t (some q) h = h

      go :
          (o : Option ℕ)
          → q.stamps.wire_sequence ≡ o
          → (let (sequence, t, c') = claimed_by o q.stamps c in
              IsSound (stamp_request w (λ _. t) c'))
      go none unclaimed = (
        s.0,
        s.1,
        s.2,
        s.3,
        s.4,
        named _ c.pending_reboot s.5,
        Numbered-claim c.pending_core0_responses c.pending_core0_responses c.pending_reboot _
            c.next_sequence c.entry_sequences c.entry_sequences
            (λ n. rw e (omega (arith, ap (is_at n) unclaimed))) s.6,
      )
      go (some sequence) claimed = (
        s.0,
        s.1,
        s.2,
        s.3,
        s.4,
        named _ c.pending_reboot s.5,
        Numbered-less c.pending_core0_responses c.pending_core0_responses c.pending_reboot _
            c.next_sequence c.entry_sequences (λ n. rw e (omega arith)) s.6,
      )

  stamp_request-IsSound :
      (f : Stamps → Stamps) (c : Core0)
      → ((s : Stamps) → (f s).wire_sequence ≡ s.wire_sequence)
      → IsSound c
      → IsSound (stamp_request w f c)
  stamp_request-IsSound f c same s = on_request-IsSound _ (λ q. (refl, same q.stamps)) c s

  marked-IsSound : (r : Bool × Core0) → IsSound r.1 → IsSound (marked w r)
  marked-IsSound (true, c) s = on_request-IsSound _ (λ q. (refl, refl)) c s
  marked-IsSound (false, c) s = s

  queue_substitute-IsSound :
      (o : Option RebootRequest) (c : Core0)
      → HasId o
      → IsSound c
      → IsSound (queue_substitute w o c)
  unfolding queue_substitute substitute_for command_error
  queue_substitute-IsSound none c h s = s
  queue_substitute-IsSound (some q) c h s = go q.stamps.permanent_failure
    where
      go : (o : Option Failure) → IsSound (substitute_queued w q o c)
      go none = s
      go (some failure) = marked-IsSound _ (
          queue-IsSound w _ c
            (substitute_for-IsBounded q.command_id (some command_reboot) q.targeted failure h) refl
            s)

  no_request-IsSound : (c : Core0) → IsSound c → IsSound (record c { pending_reboot = none })
  no_request-IsSound c s = (
    s.0,
    s.1,
    s.2,
    s.3,
    s.4,
    tt,
    Numbered-less c.pending_core0_responses c.pending_core0_responses c.pending_reboot none
        c.next_sequence c.entry_sequences (λ n. omega arith) s.6,
  )

  acknowledged-IsSound : (r : Result Bool × Core0) → IsSound r.1 → IsSound (acknowledged w r).1
  acknowledged-IsSound (ok true, c) s =
      (then-Keeps IsSound (plain _ no_request-IsSound)
          (then-Keeps IsSound (sleep-Safe 5) reset-Safe)).at
        c s
  acknowledged-IsSound (ok false, c) s = queue_substitute-IsSound c.pending_reboot c s.5 s
  acknowledged-IsSound (raise transport, c) s = s
  acknowledged-IsSound (raise escape, c) s = s
  acknowledged-IsSound (raise e, c) s = s

  perform_reboot-Safe : Safe (perform_reboot w)
  unfolding perform_reboot
  perform_reboot-Safe = record { at = λ c s. go c.pending_reboot c refl s }
    where
      go :
          (o : Option RebootRequest) (c : Core0)
          → c.pending_reboot ≡ o
          → IsSound c
          → IsSound (perform_request w o c).1
      go none c e s = s
      go (some q) c e s = tried (has_in_flight c.intercore.outbound_queue || q.answer_queued)
        where
          tried : (b : Bool) → IsSound (unless w b q c).1
          tried true = s
          tried false = acknowledged-IsSound _ (
              publish_response-keeps w Bounds (on_mqtt_message-IsSound w) (slices-Safe w)
                (stamp_request w) stamp_request-IsSound (acknowledgement w q) c
                (request-MayClaim q c e s))

  pub asking-Safe :
      (f : Core0 → Bool × Core0) → ((c : Core0) → IsSound c → IsSound (f c).1) → Safe (asking f)
  asking-Safe f k = record { at = k }

  pub when-Safe : (b : Bool) {m : Act Done} → Safe m → Safe (when b m)
  when-Safe b k = if-Keeps IsSound b k (pure-Keeps IsSound tt)

  pub ready-IsSound : (c : Core0) → IsSound c → IsSound (mqtt_publish_ready w c).1
  unfolding mqtt_publish_ready now
  ready-IsSound c s = go c.last_mqtt_publish_completed_ms
    where
      ungated : ℕ → Bool → Bool × Core0
      ungated last b =
          if b
          then (true, c)
          else (let (t, c') = now w c in
              (at_least w.config.mqtt_outbound_publish_delay_ms (w.ticks_diff t last), c'))

      gate : (last : ℕ) (b : Bool) → IsSound (ungated last b).1
      gate last true = s
      gate last false = s

      go : (o : Option ℕ) → IsSound (ready_after w o c).1
      go none = s
      go (some last) = gate last (w.config.mqtt_outbound_publish_delay_ms == 0)

  due-IsSound : (c : Core0) → IsSound c → IsSound (reboot_publish_due w c).1
  unfolding reboot_publish_due
  due-IsSound c s = go (is_some c.pending_reboot && is_connected c.mqtt)
    where
      guarded : Bool → Bool × Core0
      guarded b = if b then mqtt_publish_ready w c else (false, c)

      go : (b : Bool) → IsSound (guarded b).1
      go true = ready-IsSound c s
      go false = s

  pub reboot_if_due-Safe : Safe (reboot_if_due w)
  unfolding reboot_if_due
  reboot_if_due-Safe =
      bind-Keeps IsSound (asking-Safe (reboot_publish_due w) due-IsSound)
        λ due. when-Safe due (bind-Keeps IsSound perform_reboot-Safe λ done. pure-Keeps IsSound tt)
