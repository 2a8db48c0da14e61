-- ===== src/Intercore/Events.antt =====
-- InterCoreEventQueue and StateMailboxes of intercore.py. The locks make each operation one step,
-- so they are left out here; what gc.mem_free() finds at its n-th call is the parameter `free`.
mod Tests
use pico_dualcore.Prelude.{
  ℕ, suc, ◌+◌, ◌≤◌, ◌<◌, Bool, true, false, Option, none, some, List, [], ◌∷◌, ◌++◌, ◌≡◌, inl, inr,
  refl, ap, max, ◌-◌, Bool-cases, arith, if◌then◌else◌, length, length-append, ltb, leb,
}
use pico_dualcore.Value.{Value, is_dict, is_int}

pub record EventQueue : Type 0 where
  pub minimum_free_heap_bytes : ℕ
  pub queue : List Value
  pub high_watermark : ℕ
  pub rejected : ℕ
  pub measured : ℕ

-- `value_error` is the ValueError.
pub data PutEvent : Type 0 where
  put_true put_false value_error : PutEvent

count_rejection : EventQueue → EventQueue
count_rejection q = record q { rejected = q.rejected + 1 }

-- list.pop() of a list that is not empty.
without_last : List Value → List Value
without_last [] = []
without_last (e ∷ []) = []
without_last (e ∷ (f ∷ es)) = e ∷ without_last (f ∷ es)

-- The end of an append, by the measurement that follows it.
settle : Bool → EventQueue → PutEvent × EventQueue
unfolding count_rejection without_last
settle true q =
    let depth = length q.queue in
    (
      put_true,
      record q { high_watermark = if ltb q.high_watermark depth then depth else q.high_watermark },
    )
settle false q = (put_false, count_rejection (record q { queue = without_last q.queue }))

module _ (free : ℕ → ℕ) where
  above_floor : EventQueue → Bool × EventQueue
  above_floor q =
      (leb q.minimum_free_heap_bytes (free q.measured), record q { measured = suc q.measured })

  append_event : Value → EventQueue → PutEvent × EventQueue
  unfolding above_floor settle
  append_event event q =
      let (restored, q') = above_floor (record q { queue = q.queue ++ event ∷ [] }) in
      settle restored q'

  -- The first test decides on a collection only, which shows in the second measurement.
  admit_event : Value → EventQueue → PutEvent × EventQueue
  unfolding above_floor append_event count_rejection
  admit_event event q =
      let (ignored, q₁) = above_floor q in
      let (enough, q₂) = above_floor q₁ in
      if enough then append_event event q₂ else (put_false, count_rejection q₂)

  pub put_event : Value → EventQueue → PutEvent × EventQueue
  unfolding admit_event
  put_event event q = if is_dict event then admit_event event q else (value_error, q)

abbrev pub taken : EventQueue → List Value → Option Value × EventQueue
taken q [] = (none, q)
taken q (e ∷ es) = (some e, record q { queue = es })

unfoldable pub take_event : EventQueue → Option Value × EventQueue
take_event q = taken q q.queue

pub event_status : EventQueue → ℕ × ℕ × ℕ
event_status q = (length q.queue, q.high_watermark, q.rejected)

without_last-append : (es : List Value) (e : Value) → without_last (es ++ e ∷ []) ≡ es
unfolding without_last
without_last-append [] e = refl
without_last-append (x ∷ []) e = refl
without_last-append (x ∷ (y ∷ es)) e = ap (λ r. x ∷ r) (without_last-append (y ∷ es) e)

-- What a put does to the lane, by its result.
abbrev pub Outcome : (ℕ → ℕ) → Value → EventQueue → PutEvent → EventQueue → Type 0
Outcome free event q put_true q' =
    (is_dict event ≡ true)
    × (q'.queue ≡ q.queue ++ event ∷ [])
    × (q'.high_watermark ≡ max q.high_watermark (length q'.queue))
    × (q'.rejected ≡ q.rejected)
    × (q.minimum_free_heap_bytes ≤ free (q'.measured - 1))
Outcome free event q put_false q' =
    (is_dict event ≡ true)
    × (q'.queue ≡ q.queue)
    × (q'.high_watermark ≡ q.high_watermark)
    × (q'.rejected ≡ q.rejected + 1)
    × (free (q'.measured - 1) < q.minimum_free_heap_bytes)
Outcome free event q value_error q' = (is_dict event ≡ false) × (q' ≡ q)

settle-Outcome :
    (free : ℕ → ℕ) (event : Value) (q : EventQueue) (restored : Bool) (k : ℕ)
    → is_dict event ≡ true
    → leb q.minimum_free_heap_bytes (free k) ≡ restored
    → let r = settle restored (record q { queue = q.queue ++ event ∷ []; measured = suc k }) in
      Outcome free event q r.0 r.1
unfolding settle count_rejection
settle-Outcome free event q true k d m = ground arith
settle-Outcome free event q false k d m = let a = without_last-append q.queue event in ground arith

admit_event-Outcome :
    (free : ℕ → ℕ) (event : Value) (q : EventQueue)
    → is_dict event ≡ true
    → Outcome free event q (admit_event free event q).0 (admit_event free event q).1
unfolding admit_event append_event above_floor count_rejection
admit_event-Outcome free event q d = go (leb q.minimum_free_heap_bytes (free (suc q.measured))) refl
  where
    go :
        (enough : Bool)
        → leb q.minimum_free_heap_bytes (free (suc q.measured)) ≡ enough
        → let k = suc q.measured in
          let r =
            if enough
            then settle
                (leb q.minimum_free_heap_bytes (free (suc k)))
                (record q { queue = q.queue ++ event ∷ []; measured = suc (suc k) })
            else (put_false, count_rejection (record q { measured = suc k })) in
          Outcome free event q r.0 r.1
    go true m = settle-Outcome free event q _ (suc (suc q.measured)) d refl
    go false m = ground arith

pub put_event-Outcome :
    (free : ℕ → ℕ) (event : Value) (q : EventQueue)
    → Outcome free event q (put_event free event q).0 (put_event free event q).1
unfolding put_event
put_event-Outcome free event q = go (is_dict event) refl
  where
    go :
        (b : Bool)
        → is_dict event ≡ b
        → let r = if b then admit_event free event q else (value_error, q) in
          Outcome free event q r.0 r.1
    go true d = admit_event-Outcome free event q d
    go false d = (d, refl)
