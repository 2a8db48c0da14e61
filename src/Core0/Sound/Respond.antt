-- ===== src/Core0/Sound/Respond.antt =====
-- core0.py: the service of the responses and the substitutes keep the bounds.
use pico_dualcore.Prelude.{
  ℕ, ap, ◌≤◌, Bool, true, false, String, Option, none, some, List, [], ◌∷◌, ◌++◌, ◌≡◌, refl,
  if◌then◌else◌, leb, length, length-append, arith, All,
}
use pico_dualcore.Value.{Value, none_value, str_value, dict_value}
use pico_dualcore.Config.Check.{get}
use pico_dualcore.CommandProtocol.{is_bounded_command_id}
use pico_dualcore.Intercore.Outbound.{Entry}
use pico_dualcore.Core0.World.{World, Loaded, loaded, malformed, exhausted}
use pico_dualcore.Core0.State.{
  Core0, Response, Stamps, ◌>>=◌, Failure, escape, response_too_large, pure, act,
  max_pending_core0_responses,
}
use pico_dualcore.Core0.Basics.{error_of, queue_core0_response, command_error}
use pico_dualcore.Core0.Handlers.{answer}
use pico_dualcore.Core0.Respond.{
  publish_response, serviced, service_oldest, service_pending_core0_response, stamp_head, map_head,
  tail, replace_unsendable, substitute_for, is_response_substitute,
  answer_discarded_command_response, read_back, discarded_answer, owed, identified,
}
use pico_dualcore.Core0.Respond.{failure_message}
use pico_dualcore.Core0.Settled.{bounded_name-IsNamed}
use pico_dualcore.Core0.Keeps.{go_on-keeps, pure-Keeps, throw-Keeps}
use pico_dualcore.Core0.Arrive.{IsId}
use pico_dualcore.Core0.Sound.{IsSound, IsBounded, Sound, All-snoc, on_mqtt_message-IsSound}
use pico_dualcore.Core0.Sound.Publish.{Bounds, MayClaim, Safe, plain, publish_response-keeps}
use pico_dualcore.Core0.Publish.{claimed_by}
use pico_dualcore.Core0.Sound.Service.{slices-Safe}
use pico_dualcore.Core0.Numbered.{
  is_at, in_responses, Numbered, Numbered-less, Numbered-claim, Numbered-snoc,
}

pub substitute_for-IsBounded :
    (id : String) (command : Option String) (targeted : Bool) (failure : Failure)
    → IsId id
    → IsBounded (substitute_for id command targeted failure)
unfolding substitute_for command_error
substitute_for-IsBounded id command targeted failure b = (b, bounded_name-IsNamed _)

module _ (w : World) where
  map_head-All :
      (f : Response → Response)
      → ((r : Response) → IsBounded r → IsBounded (f r))
      → (rs : List Response) → All IsBounded rs
      → All IsBounded (map_head w f rs) × (length (map_head w f rs) ≡ length rs)
  map_head-All f k [] a = (tt, refl)
  map_head-All f k (r ∷ rs) a = ((k r a.0, a.1), refl)

  in_responses-map_head :
      (n : ℕ) (f : Response → Response)
      → ((r : Response) → is_at n (f r).stamps.wire_sequence ≤ is_at n r.stamps.wire_sequence)
      → (rs : List Response) → in_responses n (map_head w f rs) ≤ in_responses n rs
  in_responses-map_head n f less [] = omega arith
  in_responses-map_head n f less (r ∷ rs) = omega (arith, less r)

  on_head-IsSound :
      (f : Response → Response)
      → ((r : Response) → IsBounded r → IsBounded (f r))
      → ((n : ℕ) (r : Response)
          → is_at n (f r).stamps.wire_sequence ≤ is_at n r.stamps.wire_sequence)
      → (c : Core0) → IsSound c
      → IsSound (record c { pending_core0_responses = map_head w f c.pending_core0_responses })
  on_head-IsSound f k less c s =
      let (a, e) = map_head-All f k c.pending_core0_responses s.4 in
      (
        s.0,
        s.1,
        s.2,
        rw e s.3,
        a,
        s.5,
        Numbered-less c.pending_core0_responses (map_head w f c.pending_core0_responses)
            c.pending_reboot c.pending_reboot c.next_sequence c.entry_sequences
            (λ n. omega (arith, in_responses-map_head n f (less n) c.pending_core0_responses)) s.6,
      )

  stamp_head-IsSound :
      (f : Stamps → Stamps) (c : Core0)
      → ((s : Stamps) → (f s).wire_sequence ≡ s.wire_sequence)
      → IsSound c
      → IsSound (stamp_head w f c)
  stamp_head-IsSound f c same s =
      on_head-IsSound _ (λ r b. b) (λ n r. omega (arith, ap (is_at n) (same r.stamps))) c s

  -- The oldest response claims its sequence.
  head-MayClaim :
      (r : Response) (rs : List Response) (c : Core0)
      → c.pending_core0_responses ≡ r ∷ rs
      → IsSound c
      → MayClaim Bounds (stamp_head w) r c
  head-MayClaim r rs c e s = go r.stamps.wire_sequence refl
    where
      bounded :
          (t : Stamps)
          → All IsBounded (map_head w (λ r. record r { stamps = t }) c.pending_core0_responses)
            × (length (map_head w (λ r. record r { stamps = t }) c.pending_core0_responses)
                ≡ length c.pending_core0_responses)
      bounded t = map_head-All (λ r. record r { stamps = t }) (λ r b. b) _ s.4

      go :
          (o : Option ℕ)
          → r.stamps.wire_sequence ≡ o
          → (let (sequence, t, c') = claimed_by o r.stamps c in IsSound (stamp_head w (λ _. t) c'))
      go none unclaimed = (
        s.0,
        s.1,
        s.2,
        rw (bounded (record r.stamps { wire_sequence = some c.next_sequence })).1 s.3,
        (bounded _).0,
        s.5,
        Numbered-claim c.pending_core0_responses _ c.pending_reboot c.pending_reboot c.next_sequence
            c.entry_sequences c.entry_sequences (λ n. rw e (omega (arith, ap (is_at n) unclaimed)))
            s.6,
      )
      go (some sequence) claimed = (
        s.0,
        s.1,
        s.2,
        rw (bounded r.stamps).1 s.3,
        (bounded _).0,
        s.5,
        Numbered-less c.pending_core0_responses _ c.pending_reboot c.pending_reboot c.next_sequence
            c.entry_sequences (λ n. rw e (omega arith)) s.6,
      )

  replace-IsBounded : (r : Response) → IsBounded r → IsBounded (replace_unsendable w r)
  replace-IsBounded r b = go (is_response_substitute r) r.stamps.permanent_failure
    where
      go :
          (known : Bool) (o : Option Failure)
          → IsBounded (
              if known then r else elim o [
                | none ↦ r
                | some failure ↦ substitute_for r.command_id r.command r.targeted failure
              ])
      go true o = b
      go false none = b
      go false (some failure) =
          substitute_for-IsBounded r.command_id r.command r.targeted failure b.0

  replace-less :
      (n : ℕ) (r : Response)
      → is_at n (replace_unsendable w r).stamps.wire_sequence ≤ is_at n r.stamps.wire_sequence
  unfolding substitute_for command_error
  replace-less n r = go (is_response_substitute r) r.stamps.permanent_failure
    where
      replaced : Bool → Option Failure → Response
      replaced known o = if known then r else elim o [
        | none ↦ r
        | some failure ↦ substitute_for r.command_id r.command r.targeted failure
      ]

      go :
          (known : Bool) (o : Option Failure)
          → is_at n (replaced known o).stamps.wire_sequence ≤ is_at n r.stamps.wire_sequence
      go true o = omega arith
      go false none = omega arith
      go false (some failure) = omega arith

  serviced-IsSound :
      (clears done : Bool) (c : Core0) → IsSound c → IsSound (serviced w clears done c)
  unfolding serviced
  serviced-IsSound clears true c s = go clears c.pending_core0_responses s.3 s.4 s.6
    where
      go :
          (b : Bool) (rs : List Response)
          → length rs ≤ max_pending_core0_responses
          → All IsBounded rs
          → Numbered rs c.pending_reboot c.next_sequence c.entry_sequences
          → Sound c.recent_command_ids
              (tail w rs)
              (if b then none else c.pending_reboot)
              c.next_sequence
              c.entry_sequences
      go true [] l a d = (
        s.0,
        s.1,
        s.2,
        omega arith,
        tt,
        tt,
        Numbered-less [] [] c.pending_reboot none c.next_sequence c.entry_sequences
            (λ n. omega arith) d,
      )
      go false [] l a d = (s.0, s.1, s.2, omega arith, tt, s.5, d)
      go true (r ∷ rs) l a d = (
        s.0,
        s.1,
        s.2,
        omega arith,
        a.1,
        tt,
        Numbered-less (r ∷ rs) rs c.pending_reboot none c.next_sequence c.entry_sequences
            (λ n. omega arith) d,
      )
      go false (r ∷ rs) l a d = (
        s.0,
        s.1,
        s.2,
        omega arith,
        a.1,
        s.5,
        Numbered-less (r ∷ rs) rs c.pending_reboot c.pending_reboot c.next_sequence
            c.entry_sequences (λ n. omega arith) d,
      )
  serviced-IsSound clears false c s =
      on_head-IsSound (replace_unsendable w) replace-IsBounded replace-less c s

  pub service_pending_core0_response-Safe : Safe (service_pending_core0_response w)
  unfolding service_pending_core0_response ◌>>=◌
  service_pending_core0_response-Safe = record { at = λ c s. go c s c.pending_core0_responses refl }
    where
      go :
          (c : Core0)
          → IsSound c
          → (rs : List Response) → c.pending_core0_responses ≡ rs
          → IsSound (service_oldest w rs c).1
      go c s [] e = s
      go c s (r ∷ rs) e =
          go_on-keeps IsSound _ (publish_response w (stamp_head w) r c)
            (λ done. plain _ (serviced-IsSound r.clears_pending_reboot done))
            (publish_response-keeps w Bounds (on_mqtt_message-IsSound w) (slices-Safe w)
              (stamp_head w) stamp_head-IsSound r c (head-MayClaim r rs c e s))

  pub queue-IsSound :
      (r : Response) (c : Core0)
      → IsBounded r
      → r.stamps.wire_sequence ≡ none
      → IsSound c
      → IsSound (queue_core0_response r c).1
  unfolding queue_core0_response
  queue-IsSound r c b fresh s =
      go (leb max_pending_core0_responses (length c.pending_core0_responses)) refl
    where
      queued : Bool → Bool × Core0
      queued full =
          if full
          then (false, c)
          else (true, record c { pending_core0_responses = c.pending_core0_responses ++ r ∷ [] })

      go :
          (full : Bool)
          → leb max_pending_core0_responses (length c.pending_core0_responses) ≡ full
          → IsSound (queued full).1
      go true e = s
      go false e = (
        s.0,
        s.1,
        s.2,
        ground (arith, length-append c.pending_core0_responses (r ∷ [])),
        All-snoc IsBounded c.pending_core0_responses r s.4 b,
        s.5,
        Numbered-snoc c.pending_core0_responses r c.pending_reboot c.next_sequence c.entry_sequences
            fresh s.6,
      )

  identified-Safe : (v command : Value) (targeted : Bool) → Safe (identified w v command targeted)
  unfolding answer command_error
  identified-Safe none_value command targeted = pure-Keeps IsSound tt
  identified-Safe (str_value id) command targeted = go (is_bounded_command_id (str_value id)) refl
    where
      go :
          (b : Bool)
          → is_bounded_command_id (str_value id) ≡ b
          → Safe (
              if b
              then act (
                  answer (
                    command_error id targeted command
                      (error_of "response_too_large" (failure_message response_too_large) [])))
              else pure tt)
      go true e = plain _ (λ c s. queue-IsSound _ c (e, bounded_name-IsNamed command) refl s)
      go false e = pure-Keeps IsSound tt
  identified-Safe v command targeted = pure-Keeps IsSound tt

  owed-Safe : (v : Value) → Safe (owed w v)
  owed-Safe none_value = pure-Keeps IsSound tt
  owed-Safe (dict_value fs) = identified-Safe (get "command_id" fs) (get "command" fs) _
  owed-Safe v = pure-Keeps IsSound tt

  discarded_answer-Safe : (v : Value) → Safe (discarded_answer w v)
  discarded_answer-Safe none_value = pure-Keeps IsSound tt
  discarded_answer-Safe (dict_value doc) = owed-Safe (get "payload" doc)
  discarded_answer-Safe v = pure-Keeps IsSound tt

  pub answer_discarded_command_response-Safe :
      (entry : Entry) → Safe (answer_discarded_command_response w entry)
  unfolding answer_discarded_command_response
  answer_discarded_command_response-Safe entry = go (w.json_loads entry.payload_bytes)
    where
      go : (l : Loaded) → Safe (read_back w l)
      go (loaded v) = discarded_answer-Safe v
      go malformed = pure-Keeps IsSound tt
      go exhausted = throw-Keeps IsSound escape
