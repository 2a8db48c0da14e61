-- ===== src/Core0/Sound/Debounce.antt =====
-- core0.py: a command that arrives again.
use text.Mathlib.TextPositions.{eq_refl}
use pico_dualcore.Prelude.{
  ℕ, suc, ◌+◌, ◌≤◌, ◌<◌, Bool, true, false, not, String, List, [], ◌∷◌, ◌++◌, ◌≡◌, ◌⊎◌, inl, inr,
  refl, sym, subst, ap, ◌∙◌, if◌then◌else◌, ltb, length, length-append, arith,
}
use pico_dualcore.Value.{Fields, str_value}
use pico_dualcore.Config.Check.{get}
use pico_dualcore.CommandProtocol.{member, is_bounded_command_id, broadcast_target}
use pico_dualcore.MqttClient.Socket.{Bytes}
use pico_dualcore.Core0.World.{World}
use pico_dualcore.Core0.State.{Core0, Result, ok, raise, Done, pure, recent_command_id_capacity}
use pico_dualcore.Core0.Basics.{
  is_recent_command_id, remember_command_id, remember, without_first, target_matches,
}
use pico_dualcore.Core0.Handlers.{is_text}
use pico_dualcore.Core0.Command.{admit, with_id, on_command, on_mqtt_message}
use pico_dualcore.Core0.Settled.{Settled, HasRoom}
use pico_dualcore.Core0.Boundary.{admit-Settled, IsSilent}
use pico_dualcore.Core0.Arrive.{admit_known, on_mqtt_message-Takes}

-- The id is in the cache with at most `age` newer ones.
abbrev pub IsRecent : ℕ → String → List String → Type 0
IsRecent age id ids =
    (older : List String) × (newer : List String) × (ids ≡ older ++ id ∷ newer)
    × (length newer ≤ age)

member-append : (s : String) (ss ts : List String) → member s (ss ++ s ∷ ts) ≡ true
unfolding member
member-append s [] ts = rw (eq_refl s) refl
member-append s (x ∷ ss) ts = ground (arith, member-append s ss ts)

IsRecent-member :
    {age : ℕ} {id : String} {ids : List String} → IsRecent age id ids → member id ids ≡ true
IsRecent-member {age} {id} {ids} r = ap (member id) r.2 ∙ member-append id r.0 r.1

append_assoc_snoc : (xs ys : List String) (t : String) → (xs ++ ys) ++ t ∷ [] ≡ xs ++ (ys ++ t ∷ [])
append_assoc_snoc [] ys t = refl
append_assoc_snoc (x ∷ xs) ys t = ap (λ r. x ∷ r) (append_assoc_snoc xs ys t)

remember-IsRecent :
    (age : ℕ) (id t : String) (ids : List String)
    → age < 15
    → IsRecent age id ids
    → IsRecent (suc age) id (remember t ids)
unfolding remember
remember-IsRecent age id t ids small (older, newer, e, l) =
    subst
      (λ xs.
        IsRecent (suc age) id
          (if ltb recent_command_id_capacity (length xs) then without_first xs else xs))
      (sym (ap (λ xs. xs ++ t ∷ []) e ∙ append_assoc_snoc older (id ∷ newer) t))
      (go older (ltb recent_command_id_capacity (length (older ++ id ∷ (newer ++ t ∷ [])))) refl)
  where
    short : length (newer ++ t ∷ []) ≤ suc age
    short = omega (arith, l, length-append newer (t ∷ []))

    go :
        (xs : List String) (over : Bool)
        → ltb recent_command_id_capacity (length (xs ++ id ∷ (newer ++ t ∷ []))) ≡ over
        → IsRecent (suc age) id (
            if over
            then without_first (xs ++ id ∷ (newer ++ t ∷ []))
            else xs ++ id ∷ (newer ++ t ∷ []))
    go xs false o = (xs, newer ++ t ∷ [], refl, short)
    go [] true o = absurd (ground (arith, short, small))
    go (x ∷ xs) true o = (xs, newer ++ t ∷ [], refl, short)

remember_newest : (id : String) (ids : List String) → IsRecent 0 id (remember id ids)
unfolding remember
remember_newest id ids = go ids (ltb recent_command_id_capacity (length (ids ++ id ∷ []))) refl
  where
    go :
        (xs : List String) (over : Bool)
        → ltb recent_command_id_capacity (length (xs ++ id ∷ [])) ≡ over
        → IsRecent 0 id (if over then without_first (xs ++ id ∷ []) else xs ++ id ∷ [])
    go xs false o = (xs, [], refl, omega arith)
    go [] true o = absurd (ground arith)
    go (x ∷ xs) true o = (xs, [], refl, omega arith)

Settled-ids :
    (w : World) (command_id : String) (targeted : Bool) (silent : Type 0) (c : Core0)
    (r : Result Done × Core0)
    → Settled w command_id targeted silent c r
    → r.1.recent_command_ids ≡ c.recent_command_ids
Settled-ids w command_id targeted silent c (ok u, c') (inl (r, q, m, mine, name, fresh, same, e)) =
    ap (λ s. s.recent_command_ids) e
Settled-ids w command_id targeted silent c (ok u, c') (inr (inl (none_held, e))) =
    ap (λ s. s.recent_command_ids) e
Settled-ids w command_id targeted silent c (ok u, c') (inr (inr (inl (q, last, e)))) =
    ap (λ s. s.recent_command_ids) e
Settled-ids w command_id targeted silent c (ok u, c') (inr (inr (inr (quiet, e)))) =
    ap (λ s. s.recent_command_ids) e
Settled-ids w command_id targeted silent c (raise x, c') (esc, (q, m, same, e)) =
    ap (λ s. s.recent_command_ids) e

-- A claim makes the id the newest.
admit-ids :
    (w : World) (command_id : String) (broadcast : Bool) (doc : Fields) (c : Core0)
    → is_recent_command_id command_id c ≡ false
    → HasRoom c
    → (admit w command_id broadcast doc c).1.recent_command_ids
      ≡ remember command_id c.recent_command_ids
unfolding remember_command_id
admit-ids w command_id broadcast doc c new room =
    Settled-ids w command_id (not broadcast) (IsSilent broadcast (get "command" doc))
      (remember_command_id command_id c) (admit w command_id broadcast doc c)
      (admit-Settled w command_id broadcast doc c new room)

-- Messages one after another, each of which may also end in a failure.
abbrev pub arrivals : World → List (Bytes × Bytes) → Core0 → Core0
arrivals w [] c = c
arrivals w ((topic, payload) ∷ ms) c = arrivals w ms (on_mqtt_message w topic payload c).1

-- A message adds at most one id.
abbrev Grown : List String → Core0 → Type 0
Grown ids d =
    (d.recent_command_ids ≡ ids) ⊎ ((t : String) × (d.recent_command_ids ≡ remember t ids))

arrival-ids :
    (w : World) (topic payload : Bytes) (c : Core0)
    → Grown c.recent_command_ids (on_mqtt_message w topic payload c).1
arrival-ids w topic payload c =
    (on_mqtt_message-Takes (λ d. d.recent_command_ids ≡ c.recent_command_ids)
        (Grown c.recent_command_ids) w (λ a b l e. inl (l.0 ∙ e))
        (λ id broadcast doc d b new room e.
          inr (id, admit-ids w id broadcast doc d new room ∙ ap (remember id) e))
        topic payload).at
      c refl

arrival-IsRecent :
    (w : World) (age : ℕ) (id : String) (topic payload : Bytes) (c : Core0)
    → age < 15
    → IsRecent age id c.recent_command_ids
    → IsRecent (suc age) id (on_mqtt_message w topic payload c).1.recent_command_ids
arrival-IsRecent w age id topic payload c small r = go (arrival-ids w topic payload c)
  where
    go :
        Grown c.recent_command_ids (on_mqtt_message w topic payload c).1
        → IsRecent (suc age) id (on_mqtt_message w topic payload c).1.recent_command_ids
    go (inl e) = (r.0, r.1, e ∙ r.2, omega (arith, r.3))
    go (inr (t, e)) =
        subst (IsRecent (suc age) id) (sym e)
          (remember-IsRecent age id t c.recent_command_ids small r)

arrivals-IsRecent :
    (w : World) (age : ℕ) (id : String) (ms : List (Bytes × Bytes)) (c : Core0)
    → age + length ms ≤ 15
    → IsRecent age id c.recent_command_ids
    → IsRecent 15 id (arrivals w ms c).recent_command_ids
arrivals-IsRecent w age id [] c l (older, newer, e, k) = (older, newer, e, omega arith)
arrivals-IsRecent w age id ((topic, payload) ∷ ms) c l r =
    arrivals-IsRecent w (suc age) id ms (on_mqtt_message w topic payload c).1 (omega arith)
      (arrival-IsRecent w age id topic payload c (omega arith) r)

-- A command whose id is in the cache changes nothing.
on_command_known :
    (w : World) (doc : Fields) (id : String) (c : Core0)
    → get "command_id" doc ≡ str_value id
    → is_recent_command_id id c ≡ true
    → on_command w doc c ≡ (ok tt, c)
unfolding on_command with_id
on_command_known w doc id c named known =
    go (target_matches w (w.ip_address c.moment) (get "target" doc))
  where
    broadcast : Bool
    broadcast = is_text broadcast_target (get "target" doc)

    checked : (b : Bool) → (if b then admit w id broadcast doc else pure tt) c ≡ (ok tt, c)
    checked true = admit_known w id broadcast doc c known
    checked false = refl

    bounded : with_id w broadcast doc (str_value id) c ≡ (ok tt, c)
    bounded = checked (is_bounded_command_id (str_value id))

    go :
        (b : Bool)
        → (if b then with_id w broadcast doc (get "command_id" doc) c else (ok tt, c)) ≡ (ok tt, c)
    go true = ap (λ v. with_id w broadcast doc v c) named ∙ bounded
    go false = refl

-- Once the id of a command is claimed, however the command ends, up to 15 messages may arrive: a
-- command with that id then changes nothing at all, whatever else it holds and whomever it is for.
pub debounced :
    (w : World) (id : String) (broadcast : Bool) (doc doc' : Fields) (ms : List (Bytes × Bytes))
    (c : Core0)
    → is_recent_command_id id c ≡ false
    → HasRoom c
    → length ms ≤ 15
    → get "command_id" doc' ≡ str_value id
    → let c' = arrivals w ms (admit w id broadcast doc c).1 in on_command w doc' c' ≡ (ok tt, c')
unfolding is_recent_command_id
debounced w id broadcast doc doc' ms c new room few named =
    on_command_known w doc' id (arrivals w ms (admit w id broadcast doc c).1) named (
      IsRecent-member (
        arrivals-IsRecent w 0 id ms (admit w id broadcast doc c).1 (omega arith) (
          subst (IsRecent 0 id) (sym (admit-ids w id broadcast doc c new room))
            (remember_newest id c.recent_command_ids))))
