-- ===== src/Intercore/Outbound/Steps.antt =====
-- The steps of an admission, each with what it keeps.
use pico_dualcore.Prelude.{
  ℕ, ◌-◌, ◌∙◌, ◌≤◌, ◌<◌, Bool, true, false, ◌≡◌, sym, subst, inl, inr, length, arith,
}
use pico_dualcore.Intercore.Outbound.{
  OutboundQueue, Act, pure, ◌>>=◌, acquire_queue, release_queue, collect, Eviction,
  evict_one_eligible_locked, retention_priority_critical,
}
use pico_dualcore.Intercore.Outbound.Admission.{is_evicted}
use pico_dualcore.Intercore.Outbound.Invariant.{
  IsValid, Displaced, Freed, Exhausted, Displacement, evict_one_eligible_lem,
}

-- `Q` holds of the result and the state after `m` from any state with `P`.
pub record Holds {A : Type 0} (P : OutboundQueue → Type 0) (m : Act A)
    (Q : A → OutboundQueue → Type 0) : Type 0 where
  pub at : (q : OutboundQueue) → P q → Q (m q).0 (m q).1

module _ {A : Type 0} {P : OutboundQueue → Type 0} {Q : A → OutboundQueue → Type 0} where
  pub Holds-pure : (a : A) → ((q : OutboundQueue) → P q → Q a q) → Holds P (pure a) Q
  Holds-pure a h = record { at = h }

  pub Holds-weaken :
      {P' : OutboundQueue → Type 0} {m : Act A}
      → ((q : OutboundQueue) → P' q → P q)
      → Holds P m Q
      → Holds P' m Q
  Holds-weaken h t = record { at = λ q p. t.at q (h q p) }

  module _ {B : Type 0} {R : B → OutboundQueue → Type 0} where
    pub Holds-bind :
        (m : Act A) (f : A → Act B)
        → Holds P m Q
        → ((a : A) → Holds (Q a) (f a) R)
        → Holds P (m >>= f) R
    unfolding ◌>>=◌
    Holds-bind m f hm hf = record { at = λ q h. (hf (m q).0).at (m q).1 (hm.at q h) }

-- In the course of an admission of priority `p` that started at `s`: at most `n` entries are left.
pub record Pending (s : OutboundQueue) (p : ℕ) (held : Bool) (n : ℕ) (q : OutboundQueue)
    : Type 0 where
  pub valid : IsValid q
  pub displaced : Displaced p s.queue q.queue
  pub room : length q.queue ≤ n
  pub in_flight : q.in_flight ≡ s.in_flight
  pub max_messages : q.max_messages ≡ s.max_messages
  pub minimum : q.minimum_free_heap_bytes ≡ s.minimum_free_heap_bytes
  pub preferred : q.preferred_free_heap_bytes ≡ s.preferred_free_heap_bytes
  pub held_is : q.queue_held ≡ held
  pub admission : q.admission_held ≡ true
  pub breach : q.breach ≡ false

-- After an attempt to displace: an entry less, or nothing to displace.
abbrev pub Tried : OutboundQueue → ℕ → ℕ → Bool → Bool → OutboundQueue → Type 0
Tried s p n b true q = (0 < n) × Pending s p b (n - 1) q
Tried s p n b false q = Pending s p b n q × Exhausted p q.queue

module _ {s : OutboundQueue} {p n : ℕ} where
  pub acquire_queue-Holds : Holds (Pending s p false n) acquire_queue (λ _. Pending s p true n)
  unfolding acquire_queue
  acquire_queue-Holds = record { at = λ q h. ground arith }

  pub release_queue-Holds : Holds (Pending s p true n) release_queue (λ _. Pending s p false n)
  unfolding release_queue
  release_queue-Holds = record { at = λ q h. ground arith }

  -- gc.collect() is called with the queue lock free.
  pub collect-Holds : Holds (Pending s p false n) collect (λ _. Pending s p false n)
  unfolding collect
  collect-Holds = record { at = λ q h. ground arith }

  pub Pending-more :
      {b : Bool} (m : ℕ) (q : OutboundQueue) → m ≤ n → Pending s p b m q → Pending s p b n q
  Pending-more m q h g = ground arith

  pub less :
      (b : Bool) (q q' : OutboundQueue) → Pending s p b n q → Freed p q q' → Pending s p b n q'
  less b q q' g f = record {
    valid = f.valid;
    displaced = f.step s.queue g.displaced;
    room = omega (arith, g.room, f.shorter);
    in_flight = f.in_flight ∙ g.in_flight;
    max_messages = f.max_messages ∙ g.max_messages;
    minimum = f.minimum ∙ g.minimum;
    preferred = f.preferred ∙ g.preferred;
    held_is = f.held ∙ g.held_is;
    admission = f.admission ∙ g.admission;
    breach = f.breach ∙ g.breach;
  }

  tried :
      (b : Bool) (q : OutboundQueue) (v : IsValid q) (r : Eviction × OutboundQueue)
      → Pending s p b n q
      → Displacement p q v r
      → Tried s p n b (is_evicted r.0) r.1
  tried b q v (r, q') g (inl (e, f)) =
      let h : Pending s p b n q' = less b q q' g f in
      rw e (omega (arith, g.room, f.shorter), ground (arith, g.room, f.shorter, h))
  tried b q v (r, q') g (inr (e, same, x)) =
      rw e (subst (Pending s p b n) (sym same) g, subst (λ k. Exhausted p k.queue) (sym same) x)

  pub evict_one-Holds :
      (b : Bool)
      → retention_priority_critical ≤ p
      → Holds (Pending s p b n) (evict_one_eligible_locked p) (λ r. Tried s p n b (is_evicted r))
  evict_one-Holds b lo = record {
    at = λ q h.
        tried b q h.valid (evict_one_eligible_locked p q) h (evict_one_eligible_lem p q h.valid lo);
  }
