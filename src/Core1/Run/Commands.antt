-- ===== src/Core1/Run/Commands.antt =====
-- core1.py: the events that core1_main takes from the lane, and what waits for it.
use pico_dualcore.Prelude.{
  ℕ, Bool, true, false, Option, none, some, List, [], ◌∷◌, ◌≡◌, refl, ap, ◌∙◌, if◌then◌else◌,
}
use pico_dualcore.Value.{Value, Fields, dict_value}
use pico_dualcore.Config.Check.{get, lookup}
use pico_dualcore.Intercore.Events.{EventQueue, taken, take_event}
use pico_dualcore.Core1.State.{
  Core1, Result, ok, raise, Act, ◌>>=◌, go_on, current_utc_timestamp, timed, uptime_ms,
  message_time,
}
use pico_dualcore.Core1.Response.{
  Response, build_command_response, is_named, told, targeted_of, respond_with, respond_to,
  process_intercore_event, admit_or_substitute_command_response,
}
use pico_dualcore.Core1.Response.Laws.{SameCommand, Answers, admit_or_substitute-Answers}
use pico_dualcore.Core1.Run.{
  Board, Loop, Ended, ends, stops, out_of_fuel, collect_details, keep_pending, admit_if,
  pending_or_next, serve_command,
}

abbrev pub lane : Loop → List Value
lane l = l.core.intercore.event_queue.queue

-- The response carries the id, the name and the target of the event.
abbrev pub Carries : Fields → Response → Type 0
Carries event r =
    (r.command_id ≡ get "command_id" event)
    × (r.command ≡ get "command" event)
    × (r.targeted ≡ targeted_of (lookup "targeted" event))

abbrev pub MayCarry : Value → Option Response → Type 0
MayCarry event none = Unit
MayCarry (dict_value event) (some r) = Carries event r
MayCarry event (some r) = true ≡ false

-- From the response that waited before and the lane, to those after.
abbrev pub Served : Option Response → List Value → Option Response → List Value → Type 0
Served (some r) events none events' = events' ≡ events
Served (some r) events (some r') events' = SameCommand r r' × (events' ≡ events)
Served none [] pending events' = (pending ≡ none) × (events' ≡ [])
Served none (event ∷ events) pending events' = MayCarry event pending × (events' ≡ events)

-- A round that stops leaves no event behind but the one that it took.
abbrev pub Stopped : Option Response → List Value → List Value → Type 0
Stopped (some r) events events' = events' ≡ events
Stopped none [] events' = events' ≡ []
Stopped none (event ∷ events) events' = events' ≡ events

abbrev pub After : Loop → Ended (Unit {0}) × Loop → Type 0
After l (ends u, l') =
    Served l.pending_command_response (lane l) l'.pending_command_response (lane l')
After l (stops e, l') =
    Stopped l.pending_command_response (lane l) (lane l')
    × (l'.pending_command_response ≡ l.pending_command_response)
After l (out_of_fuel, l') = true ≡ false

module _ (b : Board) where
  abbrev queue_of : Core1 → List Value
  queue_of c = c.intercore.event_queue.queue

  abbrev Got : Option Response → List Value → Result (Option Response) × Core1 → Type 0
  Got before events (ok pending, c) = Served before events pending (queue_of c)
  Got before events (raise e, c) = Stopped before events (queue_of c)

  abbrev Responded : Fields → List Value → Result (Option Response) × Core1 → Type 0
  Responded event events (ok none, c) = queue_of c ≡ events
  Responded event events (ok (some r), c) = Carries event r × (queue_of c ≡ events)
  Responded event events (raise e, c) = queue_of c ≡ events

  waiting-Got :
      (r : Response) (c : Core1)
      → Got (some r) (queue_of c) (admit_or_substitute_command_response b.world r c)
  waiting-Got r c =
      go (admit_or_substitute_command_response b.world r c)
        (admit_or_substitute-Answers b.world r c)
    where
      go :
          (m : Result (Option Response) × Core1)
          → Answers c.intercore.event_queue r m
          → Got (some r) (queue_of c) m
      go (ok none, d) h = ap (λ q. q.queue) h
      go (ok (some r'), d) (s, h) = (s, ap (λ q. q.queue) h)
      go (raise e, d) h = ap (λ q. q.queue) h

  next-Got :
      (event : Fields) (events : List Value) (r : Response) (c : Core1)
      → Carries event r
      → queue_of c ≡ events
      → Got none (dict_value event ∷ events) (admit_or_substitute_command_response b.world r c)
  next-Got event events r c (i, n, t) h =
      go (admit_or_substitute_command_response b.world r c) (waiting-Got r c)
    where
      go :
          (m : Result (Option Response) × Core1)
          → Got (some r) (queue_of c) m
          → Got none (dict_value event ∷ events) m
      go (ok none, d) g = (tt, g ∙ h)
      go (ok (some r'), d) ((i', n', t'), g) = ((i' ∙ i, n' ∙ n, t' ∙ t), g ∙ h)
      go (raise e, d) g = g ∙ h

  admitted-Got :
      (event : Fields) (events : List Value) (m : Result (Option Response) × Core1)
      → Responded event events m
      → Got none (dict_value event ∷ events) (go_on (admit_if b) m)
  admitted-Got event events (ok none, c) h = (tt, h)
  admitted-Got event events (ok (some r), c) (k, h) = next-Got event events r c k h
  admitted-Got event events (raise e, c) h = h

  answered-Responded :
      (event : Fields) (events : List Value) (success : Bool) (result : Value) (c : Core1)
      → queue_of c ≡ events
      → Responded event events (respond_with b.world event (success, result) c)
  unfolding build_command_response message_time uptime_ms
  answered-Responded event events success result c h =
      go (uptime_ms b.world c).0 (uptime_ms b.world c).1 h (
        current_utc_timestamp b.world c.intercore.state_mailboxes.utc_snapshot
          (uptime_ms b.world c).0)
    where
      built : ℕ × Value → Response
      built (u, t) = record {
        command_id = get "command_id" event;
        command = get "command" event;
        targeted = targeted_of (lookup "targeted" event);
        success = success;
        result = result;
        uptime_ms = u;
        timestamp = t;
      }

      go :
          (u : ℕ) (d : Core1)
          → queue_of d ≡ events
          → (t : Result Value)
          → Responded event events
              (go_on (λ r e. (ok (some r), e)) (go_on (λ p e. (ok (built p), e)) (timed u t d)))
      go u d h (ok v) = ((refl, refl, refl), h)
      go u d h (raise e) = h

  told-Responded :
      (event : Fields) (events : List Value) (details : Result Value) (c : Core1)
      → queue_of c ≡ events
      → Responded event events
          (go_on (respond_with b.world event) (go_on (λ v d. (ok (true, v), d)) (details, c)))
  told-Responded event events (ok v) c h = answered-Responded event events true v c h
  told-Responded event events (raise e) c h = h

  event-Got :
      (event : Value) (events : List Value) (c : Core1)
      → queue_of c ≡ events
      → Got none
          (event ∷ events)
          (go_on (admit_if b) (respond_to b.world (some (collect_details b)) (some event) c))
  unfolding respond_to
  event-Got (dict_value event) events c h = go (is_named "get-details" (get "command" event))
    where
      answer : Act (Option Response)
      answer = told b.world (some (collect_details b)) >>= respond_with b.world event

      go :
          (t : Bool)
          → Got none
              (dict_value event ∷ events)
              (go_on (admit_if b) ((if t then answer else (λ d. (ok none, d))) c))
      go true =
          admitted-Got event events (answer c)
            (told-Responded event events (b.details c.moment) _ h)
      go false = (tt, h)
  event-Got v events c h = h

  next_event-Got : (c : Core1) → Got none (queue_of c) (pending_or_next b none c)
  unfolding process_intercore_event take_event respond_to
  next_event-Got c = go c.intercore.event_queue.queue refl
    where
      with_lane : EventQueue → Core1
      with_lane q = record c { intercore = record c.intercore { event_queue = q } }

      served : Option Value × EventQueue → Result (Option Response) × Core1
      served (event, q) =
          go_on (admit_if b) (respond_to b.world (some (collect_details b)) event (with_lane q))

      go :
          (events : List Value)
          → queue_of c ≡ events
          → Got none events (served (taken c.intercore.event_queue events))
      go [] h = (refl, h)
      go (event ∷ events) h =
          event-Got event events (with_lane (record c.intercore.event_queue { queue = events }))
            refl

  kept-After :
      (l : Loop) (m : Result (Option Response) × Core1)
      → Got l.pending_command_response (lane l) m
      → After l (keep_pending b l m)
  kept-After l (ok pending, c) g = g
  kept-After l (raise e, c) g = (g, refl)

-- An event leaves the lane only when no response waits, one event at a time, and the response that then
-- waits, if one does, carries the id, the name and the target of the event. While a response waits, the
-- lane is as it was, and what waits afterwards answers the same command. A round that stops here has taken
-- one event at most, and only if no response waited.
pub serve_command-After : (b : Board) (l : Loop) → After l (serve_command b l)
unfolding serve_command
serve_command-After b l =
    kept-After b l (pending_or_next b l.pending_command_response l.core)
      (go l.pending_command_response)
  where
    go : (before : Option Response) → Got b before (lane l) (pending_or_next b before l.core)
    go none = next_event-Got b l.core
    go (some r) = waiting-Got b r l.core
