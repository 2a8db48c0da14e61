-- ===== src/Intercore/Outbound/Admission/Put.antt =====
-- _admit_heap_governed: the loop under hard pressure ends, and what an admission comes to.
use pico_dualcore.Prelude.{
  ℕ, zero, suc, ◌-◌, ◌≤◌, ◌<◌, Bool, true, false, String, Option, none, some, List, ◌≡◌, refl, sym,
  subst, length, arith,
}
use pico_dualcore.Intercore.Outbound.{
  OutboundQueue, ◌>>=◌, acquire_admission, release_admission, collect, release_queue,
  retention_priority_min, reserve_restored, preferred_restored,
}
use pico_dualcore.Intercore.Outbound.Admission.{
  is_evicted, displaced_or_rejected, displace_next, gate_if, hard_round, again, hard_pressure,
  collect_unless, soft_pressure, by_reserve, or_hard, enough_fuel, admit_heap_governed,
}
use pico_dualcore.Intercore.Outbound.Invariant.{IsIdle, here, Exhausted}
use pico_dualcore.Intercore.Outbound.Steps.{
  Holds, Holds-pure, Holds-bind, Holds-weaken, Pending, Pending-more, Tried, acquire_queue-Holds,
  release_queue-Holds, collect-Holds, evict_one-Holds,
}
use pico_dualcore.Intercore.Outbound.Admission.Append.{Admitted, Appended, try_append-Holds}

module _ (free : ℕ → ℕ) (kind : String) (payload : List ℕ) (p : ℕ) where
  -- What a result of the admission that started at `s` says: `n` bounds the entries that are left
  -- where the loop goes on.
  abbrev pub Outcome : OutboundQueue → ℕ → Option Bool → OutboundQueue → Type 0
  Outcome s n none q = (0 < n) × Pending s p false (n - 1) q
  Outcome s n (some true) q = Admitted free kind payload p s false q
  Outcome s n (some false) q = Pending s p false n q × Exhausted p q.queue

  module _ {s : OutboundQueue} {n : ℕ} where
    reserve-Holds : Holds (Pending s p false n) (reserve_restored free) (λ _. Pending s p false n)
    unfolding reserve_restored
    reserve-Holds = record { at = λ q h. ground arith }

    preferred-Holds :
        Holds (Pending s p false n) (preferred_restored free) (λ _. Pending s p false n)
    unfolding preferred_restored
    preferred-Holds = record { at = λ q h. ground arith }

    collect_unless-Holds :
        (b : Bool)
        → Holds
            (Pending s p false n)
            (collect_unless free kind payload p b)
            (λ _. Pending s p false n)
    unfolding collect_unless
    collect_unless-Holds true = Holds-pure tt (λ q h. h)
    collect_unless-Holds false = collect-Holds

    displaced_or_rejected-Holds :
        (b : Bool)
        → Holds (Tried s p n true b) (displaced_or_rejected free kind payload p b) (Outcome s n)
    unfolding displaced_or_rejected release_queue collect ◌>>=◌
    displaced_or_rejected-Holds true = record { at = λ q h. (h.0, ground (arith, h.1)) }
    displaced_or_rejected-Holds false = record { at = λ q h. (ground (arith, h.0), h.1) }

  module _ {s : OutboundQueue} {n : ℕ} (lo : retention_priority_min ≤ p) where
    displace_next-Holds :
        (b : Bool)
        → Holds
            (Appended free kind payload p s n false b)
            (displace_next free kind payload p b)
            (Outcome s n)
    unfolding displace_next
    displace_next-Holds true = Holds-pure (some true) (λ q h. h)
    displace_next-Holds false = Holds-bind _ _ acquire_queue-Holds λ _.
        Holds-bind _ _ (evict_one-Holds true lo) λ r. displaced_or_rejected-Holds (is_evicted r)

    gate_if-Holds :
        (b : Bool)
        → Holds
            (Pending s p false n)
            (gate_if free kind payload p b)
            (Appended free kind payload p s n false)
    unfolding gate_if
    gate_if-Holds true = try_append-Holds free kind payload p lo
    gate_if-Holds false = Holds-pure false (λ q h. h)

    hard_round-Holds : Holds (Pending s p false n) (hard_round free kind payload p) (Outcome s n)
    unfolding hard_round
    hard_round-Holds =
        Holds-bind _ _ reserve-Holds λ b. Holds-bind _ _ (gate_if-Holds b) displace_next-Holds

  -- The loop's result: it is never `none`.
  abbrev pub Final : OutboundQueue → Option Bool → OutboundQueue → Type 0
  Final s none q = ⊥
  Final s (some true) q = Admitted free kind payload p s false q
  Final s (some false) q = Pending s p false (length s.queue) q × Exhausted p q.queue

  module _ {s : OutboundQueue} (lo : retention_priority_min ≤ p) where
    again-Holds :
        (fuel n : ℕ)
        → n < suc fuel
        → n ≤ length s.queue
        → (result : Option Bool)
        → ((m : ℕ)
            → m < fuel
            → m ≤ length s.queue
            → Holds (Pending s p false m) (hard_pressure free kind payload p fuel) (Final s))
        → Holds
            (Outcome s n result)
            (again free kind payload p result (hard_pressure free kind payload p fuel))
            (Final s)
    unfolding again
    again-Holds fuel n h k (some true) ih = Holds-pure (some true) (λ q g. g)
    again-Holds fuel n h k (some false) ih =
        Holds-pure (some false) (λ q g. (Pending-more n q k g.0, g.1))
    again-Holds fuel n h k none ih = record {
      at = λ q g. (ih (n - 1) (omega (arith, g.0)) (omega arith)).at q g.1;
    }

    hard_pressure-Holds :
        (fuel n : ℕ)
        → n < fuel
        → n ≤ length s.queue
        → Holds (Pending s p false n) (hard_pressure free kind payload p fuel) (Final s)
    unfolding hard_pressure
    hard_pressure-Holds zero n h k = absurd (omega arith)
    hard_pressure-Holds (suc fuel) n h k = record {
      at =
          (Holds-bind _ _ (hard_round-Holds lo)
            λ result. again-Holds fuel n h k result (λ m. hard_pressure-Holds fuel m)).at;
    }

    or_hard-Holds :
        (b : Bool)
        → Holds
            (Appended free kind payload p s (length s.queue) false b)
            (or_hard free kind payload p (enough_fuel free kind payload p s) b)
            (Final s)
    unfolding or_hard enough_fuel
    or_hard-Holds true = Holds-pure (some true) (λ q h. h)
    or_hard-Holds false =
        hard_pressure-Holds (suc (length s.queue)) (length s.queue) (omega arith) (omega arith)

    soft_pressure-Holds :
        (b : Bool)
        → Holds
            (Pending s p false (length s.queue))
            (soft_pressure free kind payload p b)
            (Appended free kind payload p s (length s.queue) false)
    unfolding soft_pressure
    soft_pressure-Holds false = Holds-pure false (λ q h. h)
    soft_pressure-Holds true = Holds-bind _ _ acquire_queue-Holds λ _.
        Holds-bind _ _ (evict_one-Holds true lo) λ r. Holds-weaken (still (is_evicted r)) (
          Holds-bind _ _ release_queue-Holds λ _.
            Holds-bind _ _ (collect_unless-Holds _) (λ _. try_append-Holds free kind payload p lo))
      where
        still :
            (b : Bool) (q : OutboundQueue)
            → Tried s p (length s.queue) true b q
            → Pending s p true (length s.queue) q
        still true q h = Pending-more _ q (omega arith) h.1
        still false q h = h.0

    by_reserve-Holds :
        (b : Bool)
        → Holds
            (Pending s p false (length s.queue))
            (by_reserve free kind payload p b)
            (Appended free kind payload p s (length s.queue) false)
    unfolding by_reserve
    by_reserve-Holds true = try_append-Holds free kind payload p lo
    by_reserve-Holds false = Holds-bind _ _ reserve-Holds soft_pressure-Holds

  abbrev Released : OutboundQueue → Option Bool → OutboundQueue → Type 0
  Released s r q = (q' : OutboundQueue) × Final s r q' × (q ≡ (release_admission q').1)

  pub admit-Released :
      (s : OutboundQueue)
      → IsIdle s
      → retention_priority_min ≤ p
      → let (r, q) = admit_heap_governed free kind payload p s in Released s r q
  unfolding admit_heap_governed acquire_admission
  admit-Released s idle lo =
      (Holds-bind {P = λ q. q ≡ s} _ _ entered λ _. Holds-bind _ _ preferred-Holds λ b.
          Holds-bind _ _ (collect_unless-Holds b) λ _. Holds-bind _ _ preferred-Holds λ normal.
            Holds-bind _ _ (by_reserve-Holds lo normal) λ admitted.
              Holds-bind _ _ (or_hard-Holds lo admitted) λ r.
                Holds-bind {Q = λ _. Released s r} {R = Released s} _ _
                  (record { at = λ q h. (q, h, refl) }) (λ _. Holds-pure r (λ q h. h))).at
        s refl
    where
      begun : Pending s p false (length s.queue) (acquire_admission s).1
      begun = record {
        valid = ground (arith, idle.valid);
        displaced = here;
        room = omega arith;
        in_flight = refl;
        max_messages = refl;
        minimum = refl;
        preferred = refl;
        held_is = idle.queue_free;
        admission = refl;
        breach = ground (arith, idle);
      }

      entered : Holds (λ q. q ≡ s) acquire_admission (λ _. Pending s p false (length s.queue))
      entered = record {
        at = λ q e.
            subst (λ k. Pending s p false (length s.queue) (acquire_admission k).1) (sym e) begun;
      }
