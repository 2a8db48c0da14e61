-- ===== src/Intercore/Outbound/Lane/Laws.antt =====
-- What the clients of the outbound lane rely on.
use mathlib.Core.List.{append-nil}
use pico_dualcore.Prelude.{
  ℕ, suc, ◌≤◌, ◌<◌, Bool, true, false, String, Option, none, some, List, [], ◌∷◌, ◌++◌, ◌≡◌, ◌≢◌,
  ◌⊎◌, ◌∙◌, ◌==◌, refl, sym, subst, if◌then◌else◌, length, arith,
}
use pico_dualcore.Intercore.Outbound.{
  Entry, OutboundQueue, release_admission, retention_priority_min, retention_priority_critical,
  pop_oldest, beside,
}
use pico_dualcore.Intercore.Outbound.Admission.{admit_heap_governed}
use pico_dualcore.Intercore.Outbound.Admission.Put.{admit-Released, Final}
use pico_dualcore.Intercore.Outbound.Invariant.{IsIdle, Displaced, here, next, Exhausted}

-- The entries of one retention class, oldest first.
pub class : ℕ → List Entry → List Entry
class k [] = []
class k (e ∷ es) = if e.retention_priority == k then e ∷ class k es else class k es

class-append : (k : ℕ) (es fs : List Entry) → class k (es ++ fs) ≡ class k es ++ class k fs
unfolding class
class-append k [] fs = refl
class-append k (e ∷ es) fs = ground (arith, class-append k es fs)

class-pop :
    (k w : ℕ) (es : List Entry) (e : Entry) (rest : List Entry)
    → k ≢ w
    → pop_oldest w es ≡ some (e, rest)
    → class k rest ≡ class k es
unfolding class pop_oldest
class-pop k w [] e rest ne h = cc
class-pop k w (x ∷ es) e rest ne h =
    go (x.retention_priority == w) (pop_oldest w es) refl refl h (λ y r. class-pop k w es y r ne)
  where
    go :
        (b : Bool) (o : Option (Entry × List Entry))
        → (x.retention_priority == w) ≡ b
        → pop_oldest w es ≡ o
        → (if b then some (x, es) else beside x o) ≡ some (e, rest)
        → ((y : Entry) (r : List Entry) → pop_oldest w es ≡ some (y, r) → class k r ≡ class k es)
        → class k rest ≡ class k (x ∷ es)
    go true o eq po h ih = ground arith
    go false none eq po h ih = cc
    go false (some (y, r)) eq po h ih =
        let q : x ∷ r ≡ rest = cc in
        let same : class k r ≡ class k es = ih y r po in rw (← q) (ground arith)

-- Classes more important than the incoming one, and CRITICAL, lose nothing.
pub Displaced-class :
    (p k : ℕ) {es fs : List Entry}
    → (k < p) ⊎ (k ≡ retention_priority_critical)
    → Displaced p es fs
    → class k fs ≡ class k es
Displaced-class p k h here = refl
Displaced-class p k h (next {fs = fs} {gs = gs} {e = e} d o le crit) =
    class-pop k _ fs e gs (ground arith) o ∙ Displaced-class p k h d

module _ (free : ℕ → ℕ) (kind : String) (payload : List ℕ) (p : ℕ) (s : OutboundQueue) where
  -- The entry of an admission, put last with the hard floor measured after it.
  pub record Accepted (q : OutboundQueue) : Type 0 where
    pub kept : List Entry
    pub entry : Entry
    pub displaced : Displaced p s.queue kept
    pub appended : q.queue ≡ kept ++ entry ∷ []
    pub kind_is : entry.kind ≡ kind
    pub priority_is : entry.retention_priority ≡ p
    pub payload_is : entry.payload_bytes ≡ payload
    pub last : ℕ
    pub measured : q.measured ≡ suc last
    pub floor : s.minimum_free_heap_bytes ≤ free last
    pub in_flight : q.in_flight ≡ s.in_flight

module _ (free : ℕ → ℕ) (kind : String) (payload : List ℕ) (p : ℕ) (s : OutboundQueue)
    (idle : IsIdle s) (lo : retention_priority_min ≤ p) where
  -- The loop under hard pressure ends: an admission returns True or False, whatever the garbage
  -- collector frees.
  pub admit_total : (b : Bool) × ((admit_heap_governed free kind payload p s).0 ≡ some b)
  admit_total = go _ _ (admit-Released free kind payload p s idle lo)
    where
      go :
          (r : Option Bool) (q : OutboundQueue)
          → (q' : OutboundQueue) × Final free kind payload p s r q' × (q ≡ (release_admission q').1)
          → (b : Bool) × (r ≡ some b)
      go none q h = absurd h.1
      go (some b) q h = (b, refl)

  pub admit-Final :
      (q' : OutboundQueue) × Final free kind payload p s
        (admit_heap_governed free kind payload p s).0
        q'
      × ((admit_heap_governed free kind payload p s).1 ≡ (release_admission q').1)
  admit-Final = admit-Released free kind payload p s idle lo

  -- An admission keeps the invariant of the lane, on every path: the byte and depth counters agree
  -- with what is retained, the count ceiling holds, both locks are free again, no lock was acquired
  -- while held, and gc.collect() did not run under the queue lock.
  pub admit-IsIdle : IsIdle (admit_heap_governed free kind payload p s).1
  unfolding release_admission
  admit-IsIdle = let (q', f, e) = admit-Final in subst IsIdle (sym e) (released _ q' f)
    where
      released :
          (r : Option Bool) (q' : OutboundQueue)
          → Final free kind payload p s r q'
          → IsIdle (release_admission q').1
      released none q' f = absurd f
      released (some true) q' f = ground (arith, f)
      released (some false) q' f = ground (arith, f.0)

  accepting :
      (q' : OutboundQueue)
      → Final free kind payload p s (some true) q'
      → Accepted free kind payload p s (release_admission q').1
  unfolding release_admission
  accepting q' f = record {
    kept = f.kept;
    entry = f.entry;
    displaced = f.displaced;
    appended = f.appended;
    kind_is = f.kind_is;
    priority_is = f.priority_is;
    payload_is = f.payload_is;
    last = f.last;
    measured = f.measured;
    floor = f.floor;
    in_flight = f.in_flight;
  }

  pub admit-Accepted :
      (admit_heap_governed free kind payload p s).0 ≡ some true
      → Accepted free kind payload p s (admit_heap_governed free kind payload p s).1
  admit-Accepted h =
      let (q', f, e) = admit-Final in
      subst (Accepted free kind payload p s) (sym e)
        (accepting q' (subst (λ r. Final free kind payload p s r q') h f))

  refusing :
      (q' : OutboundQueue)
      → Final free kind payload p s (some false) q'
      → Displaced p s.queue (release_admission q').1.queue
        × Exhausted p (release_admission q').1.queue
        × ((release_admission q').1.in_flight ≡ s.in_flight)
  unfolding release_admission
  refusing q' f = (f.0.displaced, f.1, f.0.in_flight)

  -- False: only when nothing is left that the message may displace; what went before was
  -- displaced by the same rule, and the in-flight entry is untouched.
  pub admit_refused :
      (admit_heap_governed free kind payload p s).0 ≡ some false
      → let q = (admit_heap_governed free kind payload p s).1 in
        Displaced p s.queue q.queue × Exhausted p q.queue × (q.in_flight ≡ s.in_flight)
  admit_refused h =
      let (q', f, e) = admit-Final in
      rw e (refusing q' (subst (λ r. Final free kind payload p s r q') h f))

  -- Whether it is admitted or not, a message displaces nothing that is more important than itself,
  -- and never a CRITICAL entry: such a class keeps all its entries in their order, and at most the
  -- message itself comes behind them.
  pub admit_keeps_class :
      (k : ℕ)
      → (k < p) ⊎ (k ≡ retention_priority_critical)
      → (added : List Entry) × (class k (admit_heap_governed free kind payload p s).1.queue
          ≡ class k s.queue ++ class k added)
        × (length added ≤ 1)
  unfolding class
  admit_keeps_class k h = go admit_total.0 admit_total.1
    where
      go :
          (b : Bool)
          → (admit_heap_governed free kind payload p s).0 ≡ some b
          → (added : List Entry) × (class k (admit_heap_governed free kind payload p s).1.queue
              ≡ class k s.queue ++ class k added)
            × (length added ≤ 1)
      go true e =
          let a = admit-Accepted e in
          (
            a.entry ∷ [],
            rw a.appended
                (class-append k a.kept (a.entry ∷ []) ∙ rw (Displaced-class p k h a.displaced)),
            omega arith,
          )
      go false e = ([], Displaced-class p k h (admit_refused e).0 ∙ sym (append-nil _), omega arith)
