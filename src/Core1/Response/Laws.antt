-- ===== src/Core1/Response/Laws.antt =====
-- core1.py: whom the responses answer, and what the smaller forms leave out.
mod Tests
use text.Mathlib.Text.{◌==◌ as str_eq}
use text.Mathlib.TextEquality.{eq_iff}
use pico_dualcore.Prelude.{
  ℕ, suc, ◌+◌, ◌≤◌, Bool, true, false, not, ◌&&◌, String, Option, none, some, List, [], ◌∷◌, ◌≡◌,
  refl, ap, ◌∙◌, sym, arith, if◌then◌else◌,
}
use pico_dualcore.Value.{Value, Fields, end, field, none_value, str_value, dict_value}
use pico_dualcore.Config.Check.{lookup, get, has_key, is_key}
use pico_dualcore.Core1.State.{
  World, Core1, Exn, too_large, value_error, memory_error, escape, Result, ok, raise, Act, ◌>>=◌,
  go_on, current_utc_timestamp, timed, message_time, uptime_ms, put,
}
use pico_dualcore.Intercore.Events.{EventQueue}
use pico_dualcore.Core1.Response.{
  Response, build_command_response, rebuild, try_queue_response, unless_admitted, admit_substitute,
  attempted, too_large_substitute, invalid_substitute, build_without, drop_sections, omit,
  section_data, admit_after_memory_error, admit_or_substitute_command_response, error_of, is_named,
  fallback_drop_order, without_key, store_key,
}

-- The same command, for the same target.
abbrev pub SameCommand : Response → Response → Type 0
SameCommand r r' =
    (r'.command_id ≡ r.command_id) × (r'.command ≡ r.command) × (r'.targeted ≡ r.targeted)

-- What is still pending answers the command of r, and the event lane is q.
abbrev pub Answers : EventQueue → Response → Result (Option Response) × Core1 → Type 0
Answers q r (ok none, c) = c.intercore.event_queue ≡ q
Answers q r (ok (some r'), c) = SameCommand r r' × (c.intercore.event_queue ≡ q)
Answers q r (raise e, c) = c.intercore.event_queue ≡ q

module _ (w : World) (q : EventQueue) (r : Response) where
  abbrev AnswersAll : (Response → Act (Option Response)) → Type 0
  AnswersAll f =
      (r' : Response) (c : Core1)
      → SameCommand r r'
      → c.intercore.event_queue ≡ q
      → Answers q r (f r' c)

  abbrev Lane : {A : Type 0} → Result A × Core1 → Type 0
  Lane m = m.1.intercore.event_queue ≡ q

  pending-Answers :
      (r' : Response) (queued : Bool) (c : Core1)
      → SameCommand r r'
      → c.intercore.event_queue ≡ q
      → Answers q r (unless_admitted w r' queued c)
  pending-Answers r' true c s h = h
  pending-Answers r' false c s h = (s, h)

  queued-Answers :
      (r' : Response) (m : Result Bool × Core1)
      → SameCommand r r'
      → Lane m
      → Answers q r (go_on (unless_admitted w r') m)
  queued-Answers r' (ok b, c) s h = pending-Answers r' b c s h
  queued-Answers r' (raise e, c) s h = h

  time-Lane : (c : Core1) → c.intercore.event_queue ≡ q → Lane (message_time w c)
  unfolding message_time uptime_ms
  time-Lane c h = go (current_utc_timestamp w c.intercore.state_mailboxes.utc_snapshot u)
    where
      u : ℕ
      u = (uptime_ms w c).0

      go : (t : Result Value) → Lane (timed u t (uptime_ms w c).1)
      go (ok v) = h
      go (raise e) = h

  try-Lane :
      (r' : Response) (c : Core1) → c.intercore.event_queue ≡ q → Lane (try_queue_response w r' c)
  unfolding try_queue_response put
  try-Lane r' c h = h

  -- A form that is built again answers the same command.
  rebuild-Answers :
      (r' : Response) (success : Bool) (result : Value) (f : Response → Act (Option Response))
      → SameCommand r r'
      → AnswersAll f
      → (c : Core1) → c.intercore.event_queue ≡ q
      → Answers q r ((rebuild w r' success result >>= f) c)
  unfolding build_command_response
  rebuild-Answers r' success result f s k c h = go (message_time w c) (time-Lane c h)
    where
      built : ℕ × Value → Response
      built (u, t) = record {
        command_id = r'.command_id;
        command = r'.command;
        targeted = r'.targeted;
        success = success;
        result = result;
        uptime_ms = u;
        timestamp = t;
      }

      go :
          (m : Result (ℕ × Value) × Core1)
          → Lane m
          → Answers q r (go_on f (go_on (λ p d. (ok (built p), d)) m))
      go (ok (u, t), d) h' = k (built (u, t)) d s h'
      go (raise e, d) h' = h'

  substitute-Answers :
      (r' : Response) (code message : String) (c : Core1)
      → SameCommand r r'
      → c.intercore.event_queue ≡ q
      → Answers q r (admit_substitute w r' code message c)
  unfolding admit_substitute
  substitute-Answers r' code message c s =
      rebuild-Answers r' false (error_of w code message)
        (λ r''. try_queue_response w r'' >>= unless_admitted w r'') s
        (λ r'' d s' h'. queued-Answers r'' (try_queue_response w r'' d) s' (try-Lane r'' d h')) c

  attempted-Answers :
      (r' : Response) (exhausted : Act (Option Response)) (m : Result Bool × Core1)
      → SameCommand r r'
      → Lane m
      → ((c : Core1) → c.intercore.event_queue ≡ q → Answers q r (exhausted c))
      → Answers q r (attempted w r' exhausted m)
  attempted-Answers r' exhausted (ok queued, c) s h k = pending-Answers r' queued c s h
  attempted-Answers r' exhausted (raise too_large, c) s h k = substitute-Answers r' _ _ c s h
  attempted-Answers r' exhausted (raise value_error, c) s h k = substitute-Answers r' _ _ c s h
  attempted-Answers r' exhausted (raise memory_error, c) s h k = k c h
  attempted-Answers r' exhausted (raise escape, c) s h k = h

  drop_sections-Answers : (sections : List String) → AnswersAll (drop_sections w r sections)
  unfolding drop_sections build_without
  drop_sections-Answers [] candidate c s h = substitute-Answers r _ _ c (refl, refl, refl) h
  drop_sections-Answers (section ∷ sections) candidate c s h =
      go (has_key section (section_data candidate)) (drop_sections-Answers sections)
    where
      smaller : Response → Act (Option Response)
      smaller r' d = attempted w r' (drop_sections w r sections r') (try_queue_response w r' d)

      go :
          (b : Bool)
          → AnswersAll (drop_sections w r sections)
          → Answers q r (
              (if b
                  then build_without w section candidate >>= smaller
                  else drop_sections w r sections candidate)
                c)
      go true ih =
          rebuild-Answers candidate true (dict_value (omit section (section_data candidate)))
            smaller s
            (λ r' d s' h'.
              attempted-Answers r' _ (try_queue_response w r' d) s' (try-Lane r' d h')
                (λ e. ih r' e s'))
            c h
      go false ih = ih candidate c s h

  after_memory_error-Answers :
      (c : Core1) → c.intercore.event_queue ≡ q → Answers q r (admit_after_memory_error w r c)
  unfolding admit_after_memory_error
  after_memory_error-Answers c h = go (is_named "get-details" r.command)
    where
      go :
          (b : Bool)
          → Answers q r
              ((if b then drop_sections w r fallback_drop_order r else invalid_substitute w r) c)
      go true = drop_sections-Answers fallback_drop_order r c (refl, refl, refl) h
      go false = substitute-Answers r _ _ c (refl, refl, refl) h

-- Whatever the lane says of a response and of each smaller form of it, what is still pending afterwards, if
-- anything, answers the same command with the same id for the same target, and the event lane is as it was.
pub admit_or_substitute-Answers :
    (w : World) (r : Response) (c : Core1)
    → Answers c.intercore.event_queue r (admit_or_substitute_command_response w r c)
unfolding admit_or_substitute_command_response
admit_or_substitute-Answers w r c =
    attempted-Answers w c.intercore.event_queue r r (admit_after_memory_error w r)
      (try_queue_response w r c) (refl, refl, refl) (try-Lane w c.intercore.event_queue r r c refl)
      (after_memory_error-Answers w c.intercore.event_queue r)

lookup-without :
    (k j : String) (fs : Fields)
    → lookup j (without_key k fs) ≡ (if str_eq k j then none else lookup j fs)
unfolding lookup without_key is_key
lookup-without k j end = ground arith
lookup-without k j (field (str_value s) v fs) =
    ground (arith, eq_iff k j, eq_iff s j, eq_iff s k, lookup-without k j fs)
lookup-without k j (field none_value v fs) = lookup-without k j fs
lookup-without k j (field u v fs) = lookup-without k j fs

lookup-store :
    (k j : String) (v : Value) (fs : Fields)
    → lookup j (store_key k v fs) ≡ (if str_eq k j then some v else lookup j fs)
unfolding lookup store_key is_key
lookup-store k j v end = ground arith
lookup-store k j v (field (str_value s) u fs) =
    ground (arith, eq_iff k j, eq_iff s j, eq_iff s k, lookup-store k j v fs)
lookup-store k j v (field none_value u fs) = lookup-store k j v fs
lookup-store k j v (field i u fs) = lookup-store k j v fs
