-- ===== src/Intercore/Outbound/Serialize/Laws.antt =====
-- _serialize_with_recovery: its end and its displacements.
use pico_dualcore.Prelude.{
  ℕ, zero, suc, ◌≤◌, ◌<◌, Bool, true, false, List, ◌≡◌, ◌≢◌, inl, inr, refl, ◌∙◌, arith, length,
}
use pico_dualcore.Value.{Value}
use pico_dualcore.Message.{
  SerializeError, unsupported_value, non_string_key, non_finite_float, message_too_large,
  serialization_error, Dumped, Serialized, payload, raised, memory_error,
  serialize_and_validate_message,
}
use pico_dualcore.Intercore.Outbound.{
  Entry, OutboundQueue, Act, ◌>>=◌, acquire_queue, release_queue, collect, Eviction,
  evict_one_eligible_locked, retention_priority_critical,
}
use pico_dualcore.Intercore.Outbound.Admission.{is_evicted}
use pico_dualcore.Intercore.Outbound.Invariant.{
  IsValid, IsIdle, Displaced, here, Exhausted, Displacement, evict_one_eligible_lem,
}
use pico_dualcore.Intercore.Outbound.Serialize.{
  handled, retry_after, Recovered, endless, heap_exhausted, permanent, evict_for_serializer,
  displacing, serialize_with_recovery,
}

-- A displacement for the serializer, or the finding that none is eligible.
record Round (p : ℕ) (q : OutboundQueue) (b : Bool) (q' : OutboundQueue) : Type 0 where
  pub idle : IsIdle q'
  pub flight : q'.in_flight ≡ q.in_flight
  pub shorter : b ≡ true → length q'.queue < length q.queue
  pub step : (es : List Entry) → Displaced p es q.queue → Displaced p es q'.queue
  pub stuck : b ≡ false → Exhausted p q'.queue

rounded :
    (p : ℕ) (q : OutboundQueue) (r : Eviction) (q' : OutboundQueue)
    → IsIdle q
    → (v : IsValid (acquire_queue q).1) → Displacement p (acquire_queue q).1 v (r, q')
    → Round p q (is_evicted r) (release_queue q').1
unfolding acquire_queue release_queue
rounded p q r q' idle v (inl (e, f)) =
    let w = f.valid in
    record {
      idle = ground (arith, f.admission, f.breach);
      flight = f.in_flight;
      shorter = λ h. omega (arith, f.shorter);
      step = f.step;
      stuck = λ h. absurd (ground (arith, e, h));
    }
rounded p q r q' idle v (inr (e, same, x)) = rw same (record {
  idle = ground arith;
  flight = refl;
  shorter = λ h. absurd (ground (arith, e, h));
  step = λ es d. d;
  stuck = λ h. x;
})

evict_for_serializer-Round :
    (dumps : ℕ → Value → Dumped) (message : Value) (p : ℕ) (q : OutboundQueue)
    → retention_priority_critical ≤ p
    → IsIdle q
    → let (b, q') = evict_for_serializer dumps message p q in Round p q b q'
unfolding evict_for_serializer ◌>>=◌ acquire_queue release_queue
evict_for_serializer-Round dumps message p q lo idle =
    let q₁ = (acquire_queue q).1 in
    let v : IsValid q₁ = ground arith in
    rounded p q (evict_one_eligible_locked p q₁).0 (evict_one_eligible_locked p q₁).1 idle v
      (evict_one_eligible_lem p q₁ v lo)

-- What a run from `s` comes to.
pub record Outcome (p : ℕ) (s : OutboundQueue) (r : Recovered) (q : OutboundQueue) : Type 0 where
  pub idle : IsIdle q
  pub flight : q.in_flight ≡ s.in_flight
  pub displaced : Displaced p s.queue q.queue
  pub ends : r ≢ endless
  pub stuck : r ≡ heap_exhausted → Exhausted p q.queue

finished :
    (p : ℕ) (s q : OutboundQueue) (e : SerializeError)
    → IsIdle q
    → q.in_flight ≡ s.in_flight
    → Displaced p s.queue q.queue
    → let (r, q') = permanent e q in Outcome p s r q'
unfolding permanent
finished p s q message_too_large i f d = ground arith
finished p s q serialization_error i f d = ground arith
finished p s q unsupported_value i f d = ground arith
finished p s q non_string_key i f d = ground arith
finished p s q non_finite_float i f d = ground arith

handled-Outcome :
    (p : ℕ) (s q : OutboundQueue) (recovery : Act Recovered) (r : Serialized)
    → IsIdle q
    → q.in_flight ≡ s.in_flight
    → Displaced p s.queue q.queue
    → Outcome p s (recovery q).0 (recovery q).1
    → Outcome p s (handled recovery r q).0 (handled recovery r q).1
unfolding handled
handled-Outcome p s q recovery (payload bs) i f d o = ground arith
handled-Outcome p s q recovery (raised e) i f d o = finished p s q e i f d
handled-Outcome p s q recovery memory_error i f d o = o

retry_after-Outcome :
    (p : ℕ) (s q q' : OutboundQueue) (again : Act Recovered) (b : Bool)
    → q.in_flight ≡ s.in_flight
    → Displaced p s.queue q.queue
    → Round p q b q'
    → (b ≡ true → Outcome p s (again (collect q').1).0 (again (collect q').1).1)
    → Outcome p s (retry_after again b q').0 (retry_after again b q').1
unfolding retry_after ◌>>=◌
retry_after-Outcome p s q q' again true f d r o = o refl
retry_after-Outcome p s q q' again false f d r o = record {
  idle = r.idle;
  flight = r.flight ∙ f;
  displaced = r.step s.queue d;
  ends = λ e. absurd (ground (arith, e));
  stuck = λ e. r.stuck refl;
}

module _ (dumps : ℕ → Value → Dumped) (message : Value) (p : ℕ)
    (lo : retention_priority_critical ≤ p) where
  displacing-Outcome :
      (fuel n : ℕ) (s q : OutboundQueue)
      → length q.queue < fuel
      → IsIdle q
      → q.in_flight ≡ s.in_flight
      → Displaced p s.queue q.queue
      → let (r, q') = displacing dumps message p fuel n q in Outcome p s r q'
  unfolding displacing ◌>>=◌ collect
  displacing-Outcome zero n s q h i f d = absurd (omega arith)
  displacing-Outcome (suc fuel) n s q h i f d =
      let (b, q') = evict_for_serializer dumps message p q in
      let r = evict_for_serializer-Round dumps message p q lo i in
      handled-Outcome p s q _ (serialize_and_validate_message (dumps n) message) i f d (
        retry_after-Outcome p s q q' (displacing dumps message p fuel (suc n)) b f d r (λ e.
          displacing-Outcome fuel (suc n) s (collect q').1 (omega (arith, h, r.shorter e))
            (let k = r.idle in ground arith) (r.flight ∙ f) (r.step s.queue d)))

  -- Serialization with recovery from an exhausted heap ends, whatever memory its attempts find. It
  -- keeps the invariant of the lane and the entry in flight, displaces only what the message may
  -- displace, and lets the MemoryError out only when nothing of that is left.
  pub serialize_with_recovery-Outcome :
      (q : OutboundQueue)
      → IsIdle q
      → let (r, q') = serialize_with_recovery dumps message p q in Outcome p q r q'
  unfolding serialize_with_recovery ◌>>=◌ collect
  serialize_with_recovery-Outcome q i =
      handled-Outcome p q q _ (serialize_and_validate_message (dumps 0) message) i refl here (
        displacing-Outcome (suc (length q.queue)) 1 q (collect q).1 (omega arith) (ground arith)
          refl here)
