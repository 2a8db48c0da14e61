-- ===== src/Core0/Sound.antt =====
-- core0.py: the bounds that every step of Core 0 keeps, and the messages that arrive.
pub mod Debounce
pub mod Service
pub mod Publish
pub mod Respond
pub mod Reboot
pub mod Network
pub mod Utc
pub mod Pass
use text.Mathlib.Text.{◌==◌ as str_eq}
use text.Mathlib.TextEquality.{eq_iff}
use pico_dualcore.Prelude.{
  ℕ, zero, suc, ◌+◌, ◌≤◌, ◌<◌, Bool, true, false, not, ◌&&◌, ◌||◌, String, Option, none, some, List,
  [], ◌∷◌, ◌++◌, ◌≡◌, ◌⊎◌, inl, inr, refl, sym, subst, ap, ◌∙◌, if◌then◌else◌, leb, ltb, leb→le,
  length, length-append, arith, Bool-cases, All,
}
use pico_dualcore.Value.{Value, Fields, end, field, str_value, dict_value, none_value}
use pico_dualcore.Config.Check.{get}
use pico_dualcore.CommandProtocol.{member, is_bounded_command_id, broadcast_target}
use pico_dualcore.MqttClient.Socket.{Bytes}
use pico_dualcore.Core0.World.{World, Loaded, loaded, malformed, exhausted}
use pico_dualcore.Core0.State.{
  Core0, Response, RebootRequest, Result, ok, raise, Act, Done, pure, max_pending_core0_responses,
  recent_command_id_capacity, UtcSnapshot, unstamped,
}
use pico_dualcore.Core0.Basics.{
  is_recent_command_id, remember_command_id, remember, without_first, target_matches,
}
use pico_dualcore.Core0.Info.{
  handle_info_response, utc_payload, utc_epoch, synchronized, utc_note_reachable_failure,
  publish_utc_snapshot, utc_clear_pending,
}
use pico_dualcore.Core0.Command.{
  admit, with_id, on_command, on_document, on_loaded, on_mqtt_message,
}
use pico_dualcore.Core0.Settled.{IsNamed, Settled, HasRoom}
use pico_dualcore.Core0.Boundary.{admit-Settled, IsSilent}
use pico_dualcore.Core0.Keeps.{Takes}
use pico_dualcore.Core0.Numbered.{in_reboot, Numbered, Numbered-less, Numbered-snoc}
use pico_dualcore.Core0.Arrive.{IsId, Leaves, on_mqtt_message-Takes}

-- A list of texts without repetition.
abbrev pub Distinct : List String → Type 0
Distinct [] = Unit
Distinct (s ∷ ss) = (member s ss ≡ false) × Distinct ss

-- A response with a bounded id and, if it has a name, a bounded name.
abbrev pub IsBounded : Response → Type 0
IsBounded r = IsId r.command_id × IsNamed r.command

abbrev pub HasId : Option RebootRequest → Type 0
HasId none = Unit
HasId (some q) = IsId q.command_id

abbrev pub Sound : List String → List Response → Option RebootRequest → ℕ → List (ℕ × ℕ) → Type 0
Sound ids rs q next es =
    (length ids ≤ recent_command_id_capacity)
    × Distinct ids
    × All IsId ids
    × (length rs ≤ max_pending_core0_responses)
    × All IsBounded rs
    × HasId q
    × Numbered rs q next es

-- The cache holds at most 16 ids, no two of them equal; at most 4 responses wait; every id and every
-- name that is kept is bounded; and no wire sequence is stamped on two of the responses, the reboot and the
-- entries, nor is the next one stamped yet.
abbrev pub IsSound : Core0 → Type 0
IsSound c =
    Sound c.recent_command_ids c.pending_core0_responses c.pending_reboot c.next_sequence
      c.entry_sequences

pub All-snoc {ℓ} :
    {A : Type ℓ} (P : A → Type 0) (xs : List A) (x : A) → All P xs → P x → All P (xs ++ x ∷ [])
All-snoc P [] x a p = (p, tt)
All-snoc P (y ∷ ys) x a p = (a.0, All-snoc P ys x a.1 p)

member-snoc :
    (s t : String) (ss : List String) → member s (ss ++ t ∷ []) ≡ (member s ss || str_eq t s)
unfolding member
member-snoc s t [] = ground arith
member-snoc s t (x ∷ ss) = ground (arith, member-snoc s t ss)

Distinct-snoc :
    (ss : List String) (t : String) → Distinct ss → member t ss ≡ false → Distinct (ss ++ t ∷ [])
unfolding member
Distinct-snoc [] t d e = (refl, tt)
Distinct-snoc (s ∷ ss) t d e = (
  ground (arith, member-snoc s t ss, eq_iff s t, eq_iff t s),
  Distinct-snoc ss t d.1 (ground arith),
)

remember-Sound :
    (id : String) (ids : List String) (rs : List Response) (q : Option RebootRequest) (next : ℕ)
    (es : List (ℕ × ℕ))
    → IsId id
    → member id ids ≡ false
    → Sound ids rs q next es
    → Sound (remember id ids) rs q next es
unfolding remember
remember-Sound id ids rs q next es b new s =
    go ids (ltb recent_command_id_capacity (length (ids ++ id ∷ []))) refl s.0
      (Distinct-snoc ids id s.1 new) (All-snoc IsId ids id s.2 b)
  where
    go :
        (xs : List String) (over : Bool)
        → ltb recent_command_id_capacity (length (xs ++ id ∷ [])) ≡ over
        → length xs ≤ recent_command_id_capacity
        → Distinct (xs ++ id ∷ [])
        → All IsId (xs ++ id ∷ [])
        → Sound (if over then without_first (xs ++ id ∷ []) else xs ++ id ∷ []) rs q next es
    go xs false e l d a = (ground (arith, length-append xs (id ∷ [])), d, a, s.3, s.4, s.5, s.6)
    go [] true e l d a = absurd (ground arith)
    go (x ∷ xs) true e l d a =
        (ground (arith, length-append xs (id ∷ [])), d.1, a.1, s.3, s.4, s.5, s.6)

Settled-IsSound :
    (w : World) (command_id : String) (targeted : Bool) (silent : Type 0) (c : Core0)
    (r : Result Done × Core0)
    → IsId command_id
    → HasRoom c
    → Settled w command_id targeted silent c r
    → IsSound c
    → IsSound r.1
Settled-IsSound w command_id targeted silent c (ok u, c') b room
      (inl (r, q, m, mine, name, fresh, same, e)) s =
    subst IsSound (sym e) (
      s.0,
      s.1,
      s.2,
      ground (arith, length-append c.pending_core0_responses (r ∷ [])),
      All-snoc IsBounded c.pending_core0_responses r s.4 (rw mine b, name),
      s.5,
      Numbered-snoc c.pending_core0_responses r c.pending_reboot c.next_sequence c.entry_sequences
          (ap (λ t. t.wire_sequence) fresh) s.6,
    )
Settled-IsSound w command_id targeted silent c (ok u, c') b room (inr (inl (none_held, e))) s =
    subst IsSound (sym e) (
      s.0,
      s.1,
      s.2,
      s.3,
      s.4,
      b,
      Numbered-less c.pending_core0_responses c.pending_core0_responses c.pending_reboot
          (some record {
            command_id = command_id;
            targeted = targeted;
            answer_queued = false;
            stamps = unstamped;
          })
          c.next_sequence c.entry_sequences (λ n. omega (arith, ap (in_reboot n) none_held)) s.6,
    )
Settled-IsSound w command_id targeted silent c (ok u, c') b room (inr (inr (inl (q, last, e)))) s =
    subst IsSound (sym e) s
Settled-IsSound w command_id targeted silent c (ok u, c') b room (inr (inr (inr (quiet, e)))) s =
    subst IsSound (sym e) s
Settled-IsSound w command_id targeted silent c (raise x, c') b room (esc, (q, m, same, e)) s =
    subst IsSound (sym e) s

Leaves-IsSound : (c c' : Core0) → Leaves c c' → IsSound c → IsSound c'
Leaves-IsSound c c' l s = rw (l.0, l.1, l.2, l.3, l.4) s

arrives :
    (w : World) (topic payload : Bytes) → Takes IsSound IsSound (on_mqtt_message w topic payload)
arrives w =
    on_mqtt_message-Takes IsSound IsSound w Leaves-IsSound
      (λ command_id broadcast doc c b new room s.
        Settled-IsSound w command_id (not broadcast) (IsSilent broadcast (get "command" doc))
          (remember_command_id command_id c) (admit w command_id broadcast doc c) b
          (unfold remember_command_id in room) (admit-Settled w command_id broadcast doc c new room)
          (unfold remember_command_id in
            remember-Sound command_id c.recent_command_ids c.pending_core0_responses
              c.pending_reboot c.next_sequence c.entry_sequences b
              (unfold is_recent_command_id in new) s))

-- Every message that arrives, whatever it holds and however it ends, keeps the bounds.
pub on_mqtt_message-IsSound :
    (w : World) (topic payload : Bytes) (c : Core0)
    → IsSound c
    → IsSound (on_mqtt_message w topic payload c).1
on_mqtt_message-IsSound w topic payload c s = (arrives w topic payload).at c s
