-- ===== src/Intercore/Outbound/Lane/Flight.antt =====
-- take() and complete_in_flight(): the entry that is being published.
use pico_dualcore.Prelude.{
  ◌+◌, Bool, true, false, Option, none, some, List, [], ◌∷◌, ◌≡◌, ◌≢◌, refl, length, arith, ==_iff,
}
use pico_dualcore.Intercore.Outbound.{Entry, OutboundQueue, depth}
use pico_dualcore.Intercore.Outbound.Invariant.{IsIdle, Under-less, total_bytes}
use pico_dualcore.Intercore.Outbound.Lane.{take, take_from, complete_in_flight, complete, get_depth}

-- What the publisher holds and what waits, in the order of publication.
abbrev pub line : OutboundQueue → List Entry
line q = elim q.in_flight [ none ↦ q.queue | some e ↦ e ∷ q.queue ]

module _ (q : OutboundQueue) where
  -- take() returns the head of the line, keeps the line and the depth as they are, and returns the
  -- same entry until it is completed.
  pub take_head :
      (e : Entry) (rest : List Entry)
      → line q ≡ e ∷ rest
      → let (r, q') = take q in
        (r ≡ some e) × (line q' ≡ line q) × (get_depth q' ≡ get_depth q) × (take q' ≡ (some e, q'))
  unfolding take get_depth
  take_head e rest h = ground arith

  pub take-IsIdle : IsIdle q → IsIdle (take q).1
  unfolding take
  take-IsIdle h = go q.in_flight q.queue refl refl
    where
      go :
          (o : Option Entry) (es : List Entry)
          → q.in_flight ≡ o
          → q.queue ≡ es
          → IsIdle (take_from o es q).1
      go (some e) es eo ee = h
      go none [] eo ee = h
      go none (e ∷ es) eo ee =
          let v = h.valid in
          let b = v.bytes in
          let d = v.depth_seen in
          let u = v.bounded in
          let k = v.priorities in
          record {
            valid = record {
              bytes = ground arith;
              depth_seen = ground arith;
              bytes_seen = v.bytes_seen;
              bounded = ground arith;
              counted = v.counted;
              thresholds = v.thresholds;
              priorities = ground arith;
            };
            queue_free = h.queue_free;
            admission_free = h.admission_free;
            unbroken = h.unbroken;
          }

  module _ (e : Entry) (discarded : Bool) (h : IsIdle q) (i : q.in_flight ≡ some e) where
    completed_bytes : q.queued_bytes ≡ total_bytes q.queue + length e.payload_bytes
    completed_bytes = let b = h.valid.bytes in ground arith

    completed : IsIdle (complete (some e) e discarded q).1
    unfolding complete
    completed =
        let v = h.valid in
        let b = completed_bytes in
        let d = v.depth_seen in
        let m = v.bytes_seen in
        rw ((==_iff e.ident e.ident).1 refl) (record {
          valid = record {
            bytes = omega arith;
            depth_seen = omega arith;
            bytes_seen = omega arith;
            bounded = Under-less _ (depth q) q.max_messages (omega arith) v.bounded;
            counted = v.counted;
            thresholds = v.thresholds;
            priorities = v.priorities;
          };
          queue_free = h.queue_free;
          admission_free = h.admission_free;
          unbroken = h.unbroken;
        })

    -- Completing the entry in flight releases it and its bytes, whether it was published or
    -- discarded: the line loses its head, and the invariant stays.
    pub complete_in_flight_self :
        let (r, q') = complete_in_flight e discarded q in
        (r ≡ true)
        × (line q' ≡ q.queue)
        × (q'.queued_bytes + length e.payload_bytes ≡ q.queued_bytes)
        × IsIdle q'
    unfolding complete_in_flight
    complete_in_flight_self =
        let b = completed_bytes in simp i (ground arith, ground arith, ground arith, completed)

    -- Another entry is not completed, and nothing changes.
    pub complete_in_flight_other :
        (entry : Entry) → e.ident ≢ entry.ident → complete_in_flight entry discarded q ≡ (false, q)
    unfolding complete_in_flight
    complete_in_flight_other entry ne = ground arith
