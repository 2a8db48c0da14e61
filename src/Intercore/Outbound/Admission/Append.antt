-- ===== src/Intercore/Outbound/Admission/Append.antt =====
-- _append_locked and _try_append_with_count_gate.
use pico_dualcore.Prelude.{
  ℕ, suc, ◌+◌, ◌≤◌, Bool, true, false, String, Option, none, some, List, [], ◌∷◌, ◌++◌, ◌≡◌, inl,
  inr, refl, sym, ap, subst, if◌then◌else◌, ltb, leb, length, length-append, arith,
}
use pico_dualcore.Intercore.Outbound.{
  Entry, OutboundQueue, in_flight_count, ◌>>=◌, ◌>>◌, depth, retention_priority_min,
  reserve_restored, release_queue, acquire_queue, collect, below_count_limit_locked, below,
  Eviction, evict_one_eligible_locked,
}
use pico_dualcore.Intercore.Outbound.Admission.{
  pop_last, settle_append, append_locked, after_append, make_room, by_room,
  try_append_with_count_gate, is_evicted,
}
use pico_dualcore.Intercore.Outbound.Invariant.{
  IsValid, Displaced, Displacement, evict_one_eligible_lem, Under, AtLeast-append,
  total_bytes-append,
}
use pico_dualcore.Intercore.Outbound.Steps.{
  Holds, Holds-pure, Holds-bind, Pending, acquire_queue-Holds, release_queue-Holds, collect-Holds,
  Holds-weaken, less,
}

pop_last-append : (es : List Entry) (e : Entry) → pop_last (es ++ e ∷ []) ≡ es
unfolding pop_last
pop_last-append [] e = refl
pop_last-append (x ∷ []) e = refl
pop_last-append (x ∷ (y ∷ es)) e = ap (λ r. x ∷ r) (pop_last-append (y ∷ es) e)

peak_le : (a b : ℕ) → b ≤ (if ltb a b then b else a)
peak_le a b = ground arith

room_left :
    (q : OutboundQueue) → below_count_limit_locked q ≡ true → Under (suc (depth q)) q.max_messages
unfolding below_count_limit_locked
room_left q h = go q.max_messages h
  where
    go : (o : Option ℕ) → below (depth q) o ≡ true → Under (suc (depth q)) o
    go none e = tt
    go (some m) e = ground arith

module _ (free : ℕ → ℕ) (kind : String) (payload : List ℕ) (p : ℕ) where
  -- The admission that started at `s` has put its entry last, behind what the displacements left,
  -- and the last measurement, made with the entry in place, is not under the hard floor.
  pub record Admitted (s : OutboundQueue) (held : Bool) (q : OutboundQueue) : Type 0 where
    pub valid : IsValid q
    pub kept : List Entry
    pub entry : Entry
    pub displaced : Displaced p s.queue kept
    pub appended : q.queue ≡ kept ++ entry ∷ []
    pub kind_is : entry.kind ≡ kind
    pub priority_is : entry.retention_priority ≡ p
    pub payload_is : entry.payload_bytes ≡ payload
    pub last : ℕ
    pub measured : q.measured ≡ suc last
    pub floor : s.minimum_free_heap_bytes ≤ free last
    pub in_flight : q.in_flight ≡ s.in_flight
    pub max_messages : q.max_messages ≡ s.max_messages
    pub held_is : q.queue_held ≡ held
    pub admission : q.admission_held ≡ true
    pub breach : q.breach ≡ false

  abbrev new_entry : OutboundQueue → Entry
  new_entry q = record {
    ident = q.next_ident;
    kind = kind;
    retention_priority = p;
    payload_bytes = payload;
  }

  abbrev measured_append : OutboundQueue → OutboundQueue
  measured_append q = record q {
    queue = q.queue ++ new_entry q ∷ [];
    next_ident = suc q.next_ident;
    measured = suc q.measured;
  }

  append_locked_lem :
      (q : OutboundQueue)
      → append_locked free kind payload p q
        ≡ settle_append
            (length payload)
            (leb q.minimum_free_heap_bytes (free q.measured))
            (measured_append q)
  unfolding append_locked reserve_restored ◌>>=◌
  append_locked_lem q = refl

  abbrev pub Appended : OutboundQueue → ℕ → Bool → Bool → OutboundQueue → Type 0
  Appended s n b true q = Admitted s b q
  Appended s n b false q = Pending s p b n q

  released : (s q : OutboundQueue) → Admitted s true q → Admitted s false (release_queue q).1
  unfolding release_queue
  released s q h = record {
    valid = ground arith;
    kept = h.kept;
    entry = h.entry;
    displaced = h.displaced;
    appended = h.appended;
    kind_is = h.kind_is;
    priority_is = h.priority_is;
    payload_is = h.payload_is;
    last = h.last;
    measured = h.measured;
    floor = h.floor;
    in_flight = h.in_flight;
    max_messages = h.max_messages;
    held_is = refl;
    admission = h.admission;
    breach = h.breach;
  }

  module _ {s : OutboundQueue} {n : ℕ} where
    settled :
        (q : OutboundQueue) (b : Bool)
        → leb q.minimum_free_heap_bytes (free q.measured) ≡ b
        → retention_priority_min ≤ p
        → Pending s p true n q
        → Under (suc (depth q)) q.max_messages
        → let (r, q') = settle_append (length payload) b (measured_append q) in
          Appended s n true r q'
    unfolding settle_append
    settled q true m lo g u = record {
      valid = record {
        bytes = omega (arith, g.valid.bytes, total_bytes-append q.queue (new_entry q ∷ []));
        depth_seen = peak_le q.high_watermark (depth (measured_append q));
        bytes_seen = peak_le q.high_watermark_bytes (q.queued_bytes + length payload);
        bounded = under q.max_messages u;
        counted = g.valid.counted;
        thresholds = g.valid.thresholds;
        priorities = AtLeast-append _ q.queue (new_entry q) g.valid.priorities lo;
      };
      kept = q.queue;
      entry = new_entry q;
      displaced = g.displaced;
      appended = refl;
      kind_is = refl;
      priority_is = refl;
      payload_is = refl;
      last = q.measured;
      measured = refl;
      floor = ground (arith, g.minimum);
      in_flight = g.in_flight;
      max_messages = g.max_messages;
      held_is = g.held_is;
      admission = g.admission;
      breach = g.breach;
    }
      where
        under : (o : Option ℕ) → Under (suc (depth q)) o → Under (depth (measured_append q)) o
        under none h = tt
        under (some k) h = omega (arith, length-append q.queue (new_entry q ∷ []))
    settled q false m lo g u = rw (pop_last-append q.queue (new_entry q)) (ground arith)

    pub append_locked-Holds :
        retention_priority_min ≤ p
        → Holds
            (λ q. Pending s p true n q × Under (suc (depth q)) q.max_messages)
            (append_locked free kind payload p)
            (Appended s n true)
    append_locked-Holds lo = record {
      at = λ q h. rw (append_locked_lem q) (settled q _ refl lo h.0 h.1);
    }

    release-Holds :
        (b : Bool)
        → Holds
            (Appended s n true b)
            (do release_queue; after_append free kind payload p b)
            (Appended s n false)
    unfolding after_append
    release-Holds true =
        Holds-bind _ _ (record { at = λ q h. released s q h }) (λ _. Holds-pure true (λ q h. h))
    release-Holds false =
        Holds-bind _ _ release_queue-Holds
          λ _. Holds-bind _ _ collect-Holds (λ _. Holds-pure false (λ q h. h))

  -- After a displacement there is room under the count ceiling.
  abbrev Roomy : OutboundQueue → ℕ → Bool → OutboundQueue → Type 0
  Roomy s n true q = Pending s p true n q × Under (suc (depth q)) q.max_messages
  Roomy s n false q = Pending s p true n q

  abbrev Free : OutboundQueue → ℕ → OutboundQueue → Type 0
  Free s n q = Pending s p false n q × Under (suc (depth q)) q.max_messages

  module _ {s : OutboundQueue} {n : ℕ} where
    release-Roomy : Holds (Roomy s n true) release_queue (λ _. Free s n)
    unfolding release_queue
    release-Roomy = record { at = λ q h. (ground arith, h.1) }

    collect-Roomy : Holds (Free s n) collect (λ _. Free s n)
    unfolding collect
    collect-Roomy = record { at = λ q h. (ground arith, h.1) }

    acquire-Roomy : Holds (Free s n) acquire_queue (λ _. Roomy s n true)
    unfolding acquire_queue
    acquire-Roomy = record { at = λ q h. (ground arith, h.1) }

    evict-Roomy :
        retention_priority_min ≤ p
        → Holds
            (λ q. Pending s p true n q × (below_count_limit_locked q ≡ false))
            (evict_one_eligible_locked p)
            (λ r. Roomy s n (is_evicted r))
    evict-Roomy lo = record {
      at = λ q h.
          roomy q h.0 (evict_one_eligible_locked p q) (evict_one_eligible_lem p q h.0.valid lo);
    }
      where
        fell : (a b : ℕ) (o : Option ℕ) → suc a ≡ b → Under b o → Under (suc a) o
        fell a b none e u = tt
        fell a b (some m) e u = omega arith

        roomy :
            (q : OutboundQueue) (g : Pending s p true n q) (r : Eviction × OutboundQueue)
            → Displacement p q g.valid r
            → Roomy s n (is_evicted r.0) r.1
        roomy q g (r, q') (inl (e, f)) = rw e (
          less true q q' g f,
          fell (depth q') (depth q) q'.max_messages
              (omega (arith, f.shorter, ap in_flight_count f.in_flight))
              (rw f.max_messages g.valid.bounded),
        )
        roomy q g (r, q') (inr (e, same, x)) = rw e (subst (Pending s p true n) (sym same) g)

  -- A displacement makes room under the ceiling.
  module _ {s : OutboundQueue} {n : ℕ} (lo : retention_priority_min ≤ p) where
    appending :
        Holds
          (λ q. Pending s p true n q × Under (suc (depth q)) q.max_messages)
          (do
            appended ← append_locked free kind payload p
            release_queue
            after_append free kind payload p appended)
          (Appended s n false)
    appending = Holds-bind _ _ (append_locked-Holds lo) release-Holds

  module _ {s : OutboundQueue} {n : ℕ} (lo : retention_priority_min ≤ p) where
    make_room-Holds :
        (b : Bool)
        → Holds (λ q. Roomy s n b q) (make_room free kind payload p b) (Appended s n false)
    unfolding make_room
    make_room-Holds true =
        Holds-bind _ _ release-Roomy
          λ _. Holds-bind _ _ collect-Roomy λ _. Holds-bind _ _ acquire-Roomy (λ _. appending lo)
    make_room-Holds false = Holds-bind _ _ release_queue-Holds (λ _. Holds-pure false (λ q h. h))

    by_room-Holds :
        (b : Bool)
        → Holds
            (λ q. Pending s p true n q × (below_count_limit_locked q ≡ b))
            (by_room free kind payload p b)
            (Appended s n false)
    unfolding by_room
    by_room-Holds true = Holds-weaken (λ q h. (h.0, room_left q h.1)) (appending lo)
    by_room-Holds false = Holds-bind _ _ (evict-Roomy lo) (λ r. make_room-Holds (is_evicted r))

    pub try_append-Holds :
        Holds
          (Pending s p false n)
          (try_append_with_count_gate free kind payload p)
          (Appended s n false)
    unfolding try_append_with_count_gate
    try_append-Holds = Holds-bind _ _ acquire_queue-Holds λ _.
        Holds-bind {Q = λ b q. Pending s p true n q × (below_count_limit_locked q ≡ b)} _ _
          (record { at = λ q h. (h, refl) }) by_room-Holds
