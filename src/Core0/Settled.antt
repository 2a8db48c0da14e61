-- ===== src/Core0/Settled.antt =====
-- core0.py: what a command that is claimed leads to.
use pico_dualcore.Prelude.{
  ℕ, suc, Bool, true, false, String, Option, none, some, List, [], ◌∷◌, ◌++◌, ◌≡◌, ◌⊎◌, inl, inr,
  refl, ap, if◌then◌else◌, leb, length,
}
use pico_dualcore.Value.{Value, Fields, end, field, str_value, dict_value, none_value}
use pico_dualcore.Intercore.Events.{
  EventQueue, PutEvent, put_true, put_false, value_error, put_event-Outcome, Outcome,
}
use pico_dualcore.Config.Check.{lookup}
use pico_dualcore.CommandProtocol.{is_bounded_command, unknown_field_names}
use pico_dualcore.Core0.World.{World, Managed, gives, config_error, escapes, WriteResult}
use pico_dualcore.Core0.State.{
  Core0, Response, RebootRequest, unstamped, escape, Result, ok, raise, Done, ◌>>=◌,
  max_pending_core0_responses,
}
use pico_dualcore.Core0.Basics.{bounded_name, command_error, queue_core0_response}
use pico_dualcore.Core0.Handlers.{
  answer, named, unknown_fields_error, handle_reboot_command, hold_reboot, details_event,
  dispatched, handle_get_details_command, read_answer, handle_read_config_command, write_answer,
  write_candidate, write_checked, handle_write_config_command, write_config_success, command_reboot,
  command_get_details, command_read_config, command_write_config,
}

-- The name that a response carries, if it carries one, is bounded.
abbrev pub IsNamed : Option String → Type 0
IsNamed none = Unit
IsNamed (some s) = is_bounded_command (str_value s) ≡ true

abbrev pub HasRoom : Core0 → Type 0
HasRoom c = leb max_pending_core0_responses (length c.pending_core0_responses) ≡ false

-- The state but for the event lane and the readings of the world.
abbrev pub moved : EventQueue → ℕ → Core0 → Core0
moved q m c = record c { intercore = record c.intercore { event_queue = q }; moment = m }

abbrev pub Same : EventQueue → Core0 → Type 0
Same q c = q.queue ≡ c.intercore.event_queue.queue

-- One response more, with the id, and nothing else but the readings and the counts of the lane.
abbrev pub Answered : String → Core0 → Core0 → Type 0
Answered command_id c c' =
    (r : Response) × (q : EventQueue) × (m : ℕ) × (r.command_id ≡ command_id)
    × IsNamed r.command
    × (r.stamps ≡ unstamped)
    × Same q c
    × (c' ≡ record (moved q m c) { pending_core0_responses = c.pending_core0_responses ++ r ∷ [] })

-- The reboot is held, and was not before.
abbrev pub Held : String → Bool → Core0 → Core0 → Type 0
Held command_id targeted c c' =
    (c.pending_reboot ≡ none)
    × (c' ≡ record c {
      pending_reboot = some (record {
        command_id = command_id;
        targeted = targeted;
        answer_queued = false;
        stamps = unstamped;
      });
    })

-- The event for Core 1 is the last of the lane.
abbrev pub Dispatched : World → String → Bool → Core0 → Core0 → Type 0
Dispatched w command_id targeted c c' =
    (q : EventQueue) × (q.queue
      ≡ c.intercore.event_queue.queue ++ details_event w command_id targeted ∷ [])
    × (c' ≡ moved q c.moment c)

-- How a claimed command ends. `silent` is the case of a write-config for all, and the last is a failure
-- that leaves run().
abbrev pub Settled : World → String → Bool → Type 0 → Core0 → Result Done × Core0 → Type 0
Settled w command_id targeted silent c (ok u, c') =
    Answered command_id c c'
    ⊎ (Held command_id targeted c c'
        ⊎ (Dispatched w command_id targeted c c' ⊎ (silent × (c' ≡ c))))
Settled w command_id targeted silent c (raise e, c') =
    (e ≡ escape) × ((q : EventQueue) × (m : ℕ) × Same q c × (c' ≡ moved q m c))

pub bounded_name-IsNamed : (v : Value) → IsNamed (bounded_name v)
bounded_name-IsNamed (str_value s) = go (is_bounded_command (str_value s)) refl
  where
    go : (b : Bool) → is_bounded_command (str_value s) ≡ b → IsNamed (if b then some s else none)
    go true e = e
    go false e = tt
bounded_name-IsNamed none_value = tt
bounded_name-IsNamed v = tt

module _ (w : World) (command_id : String) (targeted : Bool) (silent : Type 0) (c : Core0)
    (room : HasRoom c) where
  abbrev pub Ends : Result Done × Core0 → Type 0
  Ends = Settled w command_id targeted silent c

  answer-Ends :
      (q : EventQueue) (m : ℕ) (r : Response)
      → Same q c
      → r.command_id ≡ command_id
      → IsNamed r.command
      → r.stamps ≡ unstamped
      → Ends (ok tt, answer r (moved q m c))
  unfolding answer queue_core0_response
  answer-Ends q m r same mine name fresh =
      inl (r, q, m, mine, name, fresh, same, ap (λ b. (queued b).1) room)
    where
      queued : Bool → Bool × Core0
      queued b = if b then (false, moved q m c) else (
        true,
        record (moved q m c) { pending_core0_responses = c.pending_core0_responses ++ r ∷ [] },
      )

  error-Ends :
      (q : EventQueue) (m : ℕ) (command error : Value)
      → Same q c
      → Ends (ok tt, answer (command_error command_id targeted command error) (moved q m c))
  unfolding command_error
  error-Ends q m command error same =
      answer-Ends q m _ same refl (bounded_name-IsNamed command) refl

  pub refuse-Ends :
      (command error : Value)
      → Ends (ok tt, answer (command_error command_id targeted command error) c)
  refuse-Ends command error = error-Ends c.intercore.event_queue c.moment command error refl

  named-Ends :
      (q : EventQueue) (m : ℕ) (command : String) (success : Bool) (result : Value)
      → Same q c
      → is_bounded_command (str_value command) ≡ true
      → Ends (ok tt, answer (named command_id targeted command success result) (moved q m c))
  named-Ends q m command success result same b = answer-Ends q m _ same refl b refl

  -- What is answered with the lane and the readings as they are.
  known-Ends :
      (command : String) (success : Bool) (result : Value)
      → is_bounded_command (str_value command) ≡ true
      → Ends (ok tt, answer (named command_id targeted command success result) c)
  known-Ends command success result b =
      named-Ends c.intercore.event_queue c.moment command success result refl b

  unknown-Ends :
      (command : String) (payload : Fields)
      → is_bounded_command (str_value command) ≡ true
      → Ends (ok tt, answer (unknown_fields_error command command_id targeted payload) c)
  unfolding unknown_fields_error
  unknown-Ends command payload b = known-Ends command false _ b

  pub handle_reboot_command-Ends :
      (payload : Fields) → Ends (ok tt, handle_reboot_command w command_id targeted payload c)
  unfolding handle_reboot_command is_bounded_command
  handle_reboot_command-Ends (field k v fs) = unknown-Ends command_reboot (field k v fs) refl
  handle_reboot_command-Ends end = go c.pending_reboot refl
    where
      go :
          (o : Option RebootRequest)
          → c.pending_reboot ≡ o
          → Ends (ok tt, hold_reboot w command_id targeted o c)
      go none e = inr (inl (e, refl))
      go (some q) e = known-Ends command_reboot false _ refl

  dispatched-Ends :
      (put : PutEvent) (q : EventQueue)
      → Outcome w.free (details_event w command_id targeted) c.intercore.event_queue put q
      → Ends (dispatched w command_id targeted put (moved q c.moment c))
  unfolding dispatched is_bounded_command
  dispatched-Ends put_true q o = inr (inr (inl (q, o.1, refl)))
  dispatched-Ends put_false q o = named-Ends q c.moment command_get_details false _ o.1 refl
  dispatched-Ends value_error q o = absurd (cc)

  pub handle_get_details_command-Ends :
      (payload : Fields) → Ends (handle_get_details_command w command_id targeted payload c)
  unfolding handle_get_details_command is_bounded_command
  handle_get_details_command-Ends (field k v fs) =
      unknown-Ends command_get_details (field k v fs) refl
  handle_get_details_command-Ends end =
      dispatched-Ends _ _
        (put_event-Outcome w.free (details_event w command_id targeted) c.intercore.event_queue)

  abbrev asked : Core0
  asked = moved c.intercore.event_queue (suc c.moment) c

  read_answer-Ends : (found : Managed Value) → Ends (read_answer w command_id targeted found asked)
  unfolding read_answer is_bounded_command ◌>>=◌
  read_answer-Ends (gives config) =
      named-Ends c.intercore.event_queue (suc (suc c.moment)) command_read_config true _ refl refl
  read_answer-Ends (config_error err) =
      error-Ends c.intercore.event_queue (suc c.moment) (str_value command_read_config) _ refl
  read_answer-Ends escapes = (refl, (c.intercore.event_queue, suc c.moment, refl, refl))

  pub handle_read_config_command-Ends :
      (payload : Fields) → Ends (handle_read_config_command w command_id targeted payload c)
  unfolding handle_read_config_command is_bounded_command ◌>>=◌
  handle_read_config_command-Ends (field k v fs) =
      unknown-Ends command_read_config (field k v fs) refl
  handle_read_config_command-Ends end = read_answer-Ends (w.read_persisted c.moment)

  write_answer-Ends :
      (result : Managed WriteResult) → Ends (write_answer w command_id targeted result asked)
  unfolding write_answer write_config_success is_bounded_command ◌>>=◌
  write_answer-Ends (gives result) =
      named-Ends c.intercore.event_queue (suc (suc c.moment)) command_write_config true _ refl refl
  write_answer-Ends (config_error err) =
      error-Ends c.intercore.event_queue (suc c.moment) (str_value command_write_config) _ refl
  write_answer-Ends escapes = (refl, (c.intercore.event_queue, suc c.moment, refl, refl))

  write_candidate-Ends : (o : Option Value) → Ends (write_candidate w command_id targeted o c)
  unfolding write_candidate ◌>>=◌
  write_candidate-Ends none = refuse-Ends (str_value command_write_config) _
  write_candidate-Ends (some (dict_value candidate)) =
      write_answer-Ends (w.begin_write c.moment candidate)
  write_candidate-Ends (some none_value) = refuse-Ends (str_value command_write_config) _
  write_candidate-Ends (some v) = refuse-Ends (str_value command_write_config) _

  pub handle_write_config_command-Ends :
      (payload : Fields) → Ends (handle_write_config_command w command_id targeted payload c)
  unfolding handle_write_config_command write_checked
  handle_write_config_command-Ends payload = go (unknown_field_names ("config" ∷ []) payload)
    where
      go : (unknown : List String) → Ends (write_checked w command_id targeted unknown payload c)
      go [] = write_candidate-Ends (lookup "config" payload)
      go (s ∷ ss) = refuse-Ends (str_value command_write_config) _
