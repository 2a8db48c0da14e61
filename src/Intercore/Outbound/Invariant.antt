-- ===== src/Intercore/Outbound/Invariant.antt =====
-- What holds of the queue between operations, and what a displacement does.
use pico_dualcore.Prelude.{
  ℕ, suc, ◌+◌, ◌≤◌, ◌<◌, Bool, true, false, ◌&&◌, Option, none, some, List, [], ◌∷◌, ◌++◌, ◌≡◌, ◌⊎◌,
  refl, sym, ap, subst, inl, inr, if◌then◌else◌, ltb, ◌==◌, length, All, arith, Bool-cases,
}
use pico_dualcore.Intercore.Outbound.{
  Entry, OutboundQueue, depth, pop_oldest, beside, evict, evict_oldest_by_priority_locked, worse,
  worst_priority, Eviction, evicted, eligible, displace, evict_one_eligible_locked,
  lower_priority_than_queued, critical_not_evictable, retention_priority_critical,
  retention_priority_min,
}
use pico_dualcore.Intercore.Outbound.Admission.{is_evicted}

abbrev pub total_bytes : List Entry → ℕ
total_bytes [] = 0
total_bytes (e ∷ es) = length e.payload_bytes + total_bytes es

abbrev pub in_flight_bytes : Option Entry → ℕ
in_flight_bytes none = 0
in_flight_bytes (some e) = length e.payload_bytes

abbrev pub Under : ℕ → Option ℕ → Type 0
Under n none = Unit
Under n (some m) = n ≤ m

abbrev pub AtLeast : ℕ → List Entry → Type 0
AtLeast w = All (λ e. w ≤ e.retention_priority)

-- The counters agree with what is retained, and the count ceiling holds.
pub record IsValid (q : OutboundQueue) : Type 0 where
  pub bytes : q.queued_bytes ≡ total_bytes q.queue + in_flight_bytes q.in_flight
  pub depth_seen : depth q ≤ q.high_watermark
  pub bytes_seen : q.queued_bytes ≤ q.high_watermark_bytes
  pub bounded : Under (depth q) q.max_messages
  pub counted : q.telemetry_evicted ≤ q.messages_evicted
  pub thresholds : q.minimum_free_heap_bytes ≤ q.preferred_free_heap_bytes
  pub priorities : AtLeast retention_priority_min q.queue

-- Between two operations: the queue is valid, and nobody holds a lock.
pub record IsIdle (q : OutboundQueue) : Type 0 where
  pub valid : IsValid q
  pub queue_free : q.queue_held ≡ false
  pub admission_free : q.admission_held ≡ false
  pub unbroken : q.breach ≡ false

-- The queues that displacements for an incoming priority `p` can lead to: each takes the oldest
-- entry of the least important class, which is not more important than `p` and not CRITICAL.
pub data Displaced (p : ℕ) (es : List Entry) : List Entry → Type 0 where
  here : Displaced p es es
  next :
      {fs gs : List Entry} {e : Entry}
      → Displaced p es fs
      → pop_oldest (worst_priority fs) fs ≡ some (e, gs)
      → p ≤ worst_priority fs
      → retention_priority_critical < worst_priority fs
      → Displaced p es gs

-- Nothing may be displaced for `p`.
abbrev pub Exhausted : ℕ → List Entry → Type 0
Exhausted p es =
    (es ≡ [])
    ⊎ (worst_priority es < p)
    ⊎ ((worst_priority es ≡ retention_priority_critical) × (p ≡ retention_priority_critical))

pub total_bytes-append :
    (es fs : List Entry) → total_bytes (es ++ fs) ≡ total_bytes es + total_bytes fs
total_bytes-append [] fs = omega arith
total_bytes-append (e ∷ es) fs = omega (arith, total_bytes-append es fs)

pub AtLeast-append :
    (w : ℕ) (es : List Entry) (e : Entry)
    → AtLeast w es
    → w ≤ e.retention_priority
    → AtLeast w (es ++ e ∷ [])
AtLeast-append w [] e h k = (k, tt)
AtLeast-append w (x ∷ es) e h k = (h.0, AtLeast-append w es e h.1 k)

-- What pop_oldest takes off: its length, its bytes, its priority, and nothing else.
pub record Popped (p : ℕ) (es : List Entry) (e : Entry) (rest : List Entry) : Type 0 where
  pub one_less : length es ≡ suc (length rest)
  pub bytes : total_bytes es ≡ total_bytes rest + length e.payload_bytes
  pub class : e.retention_priority ≡ p
  pub kept : (w : ℕ) → AtLeast w es → AtLeast w rest

module _ (p : ℕ) (x : Entry) (es : List Entry) where
  Popped-head : x.retention_priority ≡ p → Popped p (x ∷ es) x es
  Popped-head c = record { one_less = refl; bytes = omega arith; class = c; kept = λ w h. h.1 }

  Popped-tail :
      {e : Entry} {rest : List Entry} → Popped p es e rest → Popped p (x ∷ es) e (x ∷ rest)
  Popped-tail h = record {
    one_less = ap suc h.one_less;
    bytes = omega (arith, h.bytes);
    class = h.class;
    kept = λ w k. (k.0, h.kept w k.1);
  }

  popped :
      (e : Entry) (rest : List Entry) (b : Bool) (o : Option (Entry × List Entry))
      → (x.retention_priority == p) ≡ b
      → ((y : Entry) (r : List Entry) → o ≡ some (y, r) → Popped p es y r)
      → (if b then some (x, es) else beside x o) ≡ some (e, rest)
      → Popped p (x ∷ es) e rest
  popped e rest true o c ih h =
      let xe : x ≡ e = cc in
      let er : es ≡ rest = cc in
      subst (λ r. Popped p (x ∷ es) e r) er
        (subst (λ y. Popped p (x ∷ es) y es) xe (Popped-head (ground arith)))
  popped e rest false none c ih h = cc
  popped e rest false (some (y, r)) c ih h =
      let ye : y ≡ e = cc in
      let rr : x ∷ r ≡ rest = cc in
      subst (λ r. Popped p (x ∷ es) e r) rr
        (subst (λ z. Popped p (x ∷ es) z (x ∷ r)) ye (Popped-tail (ih y r refl)))

pub pop_oldest-Popped :
    (p : ℕ) (es : List Entry) (e : Entry) (rest : List Entry)
    → pop_oldest p es ≡ some (e, rest)
    → Popped p es e rest
unfolding pop_oldest
pop_oldest-Popped p [] e rest h = cc
pop_oldest-Popped p (x ∷ es) e rest h =
    popped p x es e rest (x.retention_priority == p) (pop_oldest p es) refl
      (λ y r. pop_oldest-Popped p es y r) h

-- The worst class bounds every entry and has one, unless it is the floor of the scan.
abbrev Has : ℕ → List Entry → Type 0
Has w [] = ⊥
Has w (e ∷ es) = (e.retention_priority ≡ w) ⊎ Has w es

worse-grows : (w : ℕ) (es : List Entry) → w ≤ worse w es
unfolding worse
worse-grows w [] = omega arith
worse-grows w (e ∷ es) =
    ground (arith, worse-grows (if ltb w e.retention_priority then e.retention_priority else w) es)

seen :
    (w x : ℕ) (es : List Entry) (b : Bool)
    → let v = if b then x else w in
      (worse v es ≡ v) ⊎ Has (worse v es) es
      → (worse v es ≡ w) ⊎ ((x ≡ worse v es) ⊎ Has (worse v es) es)
seen w x es true (inl q) = inr (inl (sym q))
seen w x es false (inl q) = inl q
seen w x es b (inr q) = inr (inr q)

worse-Has : (w : ℕ) (es : List Entry) → (worse w es ≡ w) ⊎ Has (worse w es) es
unfolding worse
worse-Has w [] = inl refl
worse-Has w (e ∷ es) =
    let b = ltb w e.retention_priority in
    seen w e.retention_priority es b (worse-Has (if b then e.retention_priority else w) es)

pop_oldest-Has :
    (p : ℕ) (es : List Entry)
    → Has p es
    → (e : Entry) × (rest : List Entry) × (pop_oldest p es ≡ some (e, rest))
unfolding pop_oldest
pop_oldest-Has p [] h = absurd h
pop_oldest-Has p (x ∷ es) (inl h) = (x, es, ground arith)
pop_oldest-Has p (x ∷ es) (inr h) = elim (Bool-cases (x.retention_priority == p)) [
  | inl hit ↦ (x, es, rw hit)
  | inr miss ↦ let (e, rest, q) = pop_oldest-Has p es h in (e, x ∷ rest, rw (miss, q))
]

-- A class worse than CRITICAL is there to be displaced.
pub pop_worst :
    (es : List Entry)
    → retention_priority_critical < worst_priority es
    → (e : Entry) × (rest : List Entry) × (pop_oldest (worst_priority es) es ≡ some (e, rest))
unfolding worst_priority
pop_worst es h = elim (worse-Has retention_priority_min es) [
  | inl none_worse ↦ absurd (omega arith)
  | inr has ↦ pop_oldest-Has (worse retention_priority_min es) es has
]

pub critical-le-worst : (es : List Entry) → retention_priority_critical ≤ worst_priority es
unfolding worst_priority
critical-le-worst es = worse-grows retention_priority_min es

-- What a displacement for `p` changes.
pub record Freed (p : ℕ) (q q' : OutboundQueue) : Type 0 where
  pub valid : IsValid q'
  pub step : (es : List Entry) → Displaced p es q.queue → Displaced p es q'.queue
  pub shorter : length q.queue ≡ suc (length q'.queue)
  pub in_flight : q'.in_flight ≡ q.in_flight
  pub max_messages : q'.max_messages ≡ q.max_messages
  pub minimum : q'.minimum_free_heap_bytes ≡ q.minimum_free_heap_bytes
  pub preferred : q'.preferred_free_heap_bytes ≡ q.preferred_free_heap_bytes
  pub held : q'.queue_held ≡ q.queue_held
  pub admission : q'.admission_held ≡ q.admission_held
  pub breach : q'.breach ≡ q.breach

pub Under-less : (n k : ℕ) (o : Option ℕ) → n ≤ k → Under k o → Under n o
Under-less n k none h u = tt
Under-less n k (some m) h u = omega arith

module _ (p : ℕ) (q : OutboundQueue) (v : IsValid q) where
  evict-Freed :
      (e : Entry) (rest : List Entry)
      → p ≤ worst_priority q.queue
      → retention_priority_critical < worst_priority q.queue
      → pop_oldest (worst_priority q.queue) q.queue ≡ some (e, rest)
      → Freed p q (evict (some (e, rest)) q).1
  unfolding evict
  evict-Freed e rest hp hc h =
      let o = pop_oldest-Popped _ q.queue e rest h in
      record {
        valid = record {
          bytes = omega (arith, v.bytes, o.bytes);
          depth_seen = omega (arith, v.depth_seen, o.one_less);
          bytes_seen = omega (arith, v.bytes_seen);
          bounded = Under-less _ _ q.max_messages (omega (arith, o.one_less)) v.bounded;
          counted = ground (arith, v.counted);
          thresholds = v.thresholds;
          priorities = o.kept retention_priority_min v.priorities;
        };
        step = λ es d. next d h hp hc;
        shorter = o.one_less;
        in_flight = refl;
        max_messages = refl;
        minimum = refl;
        preferred = refl;
        held = refl;
        admission = refl;
        breach = refl;
      }

  -- One displacement takes an eligible entry off the queue, or changes nothing and none is eligible.
  abbrev pub Displacement : Eviction × OutboundQueue → Type 0
  Displacement (r, q') =
      ((is_evicted r ≡ true) × Freed p q q')
      ⊎ ((is_evicted r ≡ false) × (q' ≡ q) × Exhausted p q.queue)

  evicting :
      (w : ℕ)
      → worst_priority q.queue ≡ w
      → p ≤ w
      → retention_priority_critical < w
      → Displacement (displace (evicted w) q)
  unfolding displace evict_oldest_by_priority_locked
  evicting w e hp hc =
      let hp' : p ≤ worst_priority q.queue = omega (arith, e) in
      let hc' : retention_priority_critical < worst_priority q.queue = omega (arith, e) in
      let (x, rest, h) = pop_worst q.queue hc' in
      inl (
        refl,
        subst (λ k. Freed p q (evict (pop_oldest k q.queue) q).1) e
            (rw h (evict-Freed x rest hp' hc' h)),
      )

  choosing :
      (w : ℕ) (b c : Bool)
      → worst_priority q.queue ≡ w
      → retention_priority_critical ≤ p
      → ltb w p ≡ b
      → (w == retention_priority_critical && p == retention_priority_critical) ≡ c
      → Displacement (
          displace
            (if b
              then lower_priority_than_queued
              else if c
              then critical_not_evictable
              else evicted w)
            q)
  unfolding displace
  choosing w true c e lo hb hc = inr (refl, refl, inr (inl (ground (arith, e))))
  choosing w false true e lo hb hc = inr (refl, refl, inr (inr (ground (arith, e))))
  choosing w false false e lo hb hc =
      evicting w e (ground arith) (ground (arith, e, critical-le-worst q.queue))

  pub evict_one_eligible_lem :
      retention_priority_critical ≤ p → Displacement (evict_one_eligible_locked p q)
  unfolding evict_one_eligible_locked eligible
  evict_one_eligible_lem lo = go q.queue refl
    where
      go : (es : List Entry) → q.queue ≡ es → Displacement (displace (eligible p es) q)
      go [] e = inr (refl, refl, inl e)
      go (x ∷ es) e = choosing (worst_priority (x ∷ es)) _ _ (ap worst_priority e) lo refl refl
