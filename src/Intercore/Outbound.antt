-- ===== src/Intercore/Outbound.antt =====
-- OutboundQueue of intercore.py. The garbage collector is not part of the repository: its
-- measurements are a parameter `free`, the bytes that the n-th call of gc.mem_free() finds, with
-- nothing assumed of it, so every theorem holds whatever the collector frees.
pub mod Admission
pub mod Invariant
pub mod Steps
pub mod Lane
pub mod Serialize
use text.Mathlib.Text.{◌==◌ as str_eq}
use pico_dualcore.Prelude.{
  ℕ, zero, suc, ◌+◌, ◌-◌, ◌≤◌, Bool, true, false, not, ◌&&◌, ◌||◌, String, Option, none, some, List,
  [], ◌∷◌, ◌++◌, if◌then◌else◌, ltb, leb, ◌==◌, length, is_some,
}

abbrev pub kind_telemetry : String
kind_telemetry = "telemetry"

abbrev pub kind_command_response : String
kind_command_response = "command_response"

abbrev pub kind_health : String
kind_health = "health"

abbrev pub kind_log : String
kind_log = "log"

abbrev pub retention_priority_critical : ℕ
retention_priority_critical = 10

abbrev pub retention_priority_min : ℕ
retention_priority_min = retention_priority_critical

abbrev pub retention_priority_max : ℕ
retention_priority_max = 70

-- `ident` stands for the identity of the object.
pub record Entry : Type 0 where
  pub ident : ℕ
  pub kind : String
  pub retention_priority : ℕ
  pub payload_bytes : List ℕ

-- `measured` counts the calls of gc.mem_free(). `queue_held` and `admission_held` tell who holds the
-- two locks; `breach` is set for good by an acquisition that would block for ever and by a
-- gc.collect() under the queue lock.
pub record OutboundQueue : Type 0 where
  pub minimum_free_heap_bytes : ℕ
  pub preferred_free_heap_bytes : ℕ
  pub max_messages : Option ℕ
  pub queue : List Entry
  pub in_flight : Option Entry
  pub high_watermark : ℕ
  pub high_watermark_bytes : ℕ
  pub queued_bytes : ℕ
  pub messages_evicted : ℕ
  pub telemetry_evicted : ℕ
  pub messages_rejected : ℕ
  pub serialization_rejected : ℕ
  pub oversized_rejected : ℕ
  pub oversized_discarded : ℕ
  pub next_ident : ℕ
  pub measured : ℕ
  pub queue_held : Bool
  pub admission_held : Bool
  pub breach : Bool

abbrev pub Act : Type 0 → Type 0
Act A = OutboundQueue → A × OutboundQueue

module _ {A : Type 0} where
  abbrev pub pure : A → Act A
  pure a q = (a, q)

module _ {A B : Type 0} where
  infixl 10 ◌>>=◌ ◌>>◌
  unfoldable pub ◌>>=◌ : Act A → (A → Act B) → Act B
  ◌>>=◌ m f q = let (a, q') = m q in f a q'

  abbrev pub ◌>>◌ : Act A → Act B → Act B
  m >> n = m >>= λ _. n

abbrev pub Done : Type 0
Done = Unit {0}

unfoldable pub acquire_queue : Act Done
acquire_queue q = (tt, record q { queue_held = true; breach = q.breach || q.queue_held })

pub release_queue : Act Done
release_queue q = (tt, record q { queue_held = false })

unfoldable pub acquire_admission : Act Done
acquire_admission q = (
  tt,
  record q { admission_held = true; breach = q.breach || (q.queue_held || q.admission_held) },
)

pub release_admission : Act Done
release_admission q = (tt, record q { admission_held = false })

-- gc.collect(): what it frees shows in the measurements that follow.
pub collect : Act Done
collect q = (tt, record q { breach = q.breach || q.queue_held })

abbrev pub in_flight_count : Option Entry → ℕ
in_flight_count none = 0
in_flight_count (some e) = 1

-- len(self._queue) + (1 if self._in_flight is not None else 0)
abbrev pub depth : OutboundQueue → ℕ
depth q = length q.queue + in_flight_count q.in_flight

abbrev pub below : ℕ → Option ℕ → Bool
below n none = true
below n (some m) = ltb n m

unfoldable pub below_count_limit_locked : OutboundQueue → Bool
below_count_limit_locked q = below (depth q) q.max_messages

module _ (free : ℕ → ℕ) where
  pub mem_free : Act ℕ
  mem_free q = (free q.measured, record q { measured = suc q.measured })

  unfoldable pub reserve_restored : Act Bool
  unfolding mem_free
  reserve_restored q = let (bytes, q') = mem_free q in (leb q.minimum_free_heap_bytes bytes, q')

  unfoldable pub preferred_restored : Act Bool
  unfolding mem_free
  preferred_restored q = let (bytes, q') = mem_free q in (leb q.preferred_free_heap_bytes bytes, q')

abbrev pub beside : Entry → Option (Entry × List Entry) → Option (Entry × List Entry)
beside e none = none
beside e (some (x, rest)) = some (x, e ∷ rest)

-- The first entry of the class, and the queue without it.
pub pop_oldest : ℕ → List Entry → Option (Entry × List Entry)
pop_oldest p [] = none
pop_oldest p (e ∷ es) =
    if e.retention_priority == p then some (e, es) else beside e (pop_oldest p es)

-- The counters never fall below what is taken off them: see Invariant.
evict : Option (Entry × List Entry) → Act Bool
evict none q = (false, q)
evict (some (e, rest)) q = (
  true,
  record q {
    queue = rest;
    queued_bytes = q.queued_bytes - length e.payload_bytes;
    messages_evicted = q.messages_evicted + 1;
    telemetry_evicted =
        if str_eq e.kind kind_telemetry then q.telemetry_evicted + 1 else q.telemetry_evicted;
  },
)

pub evict_oldest_by_priority_locked : ℕ → Act Bool
unfolding evict
evict_oldest_by_priority_locked p q = evict (pop_oldest p q.queue) q

worse : ℕ → List Entry → ℕ
worse w [] = w
worse w (e ∷ es) = worse (if ltb w e.retention_priority then e.retention_priority else w) es

pub worst_priority : List Entry → ℕ
unfolding worse
worst_priority es = worse retention_priority_min es

pub data Eviction : Type 0 where
  evicted : ℕ → Eviction
  memory_pressure lower_priority_than_queued critical_not_evictable : Eviction

-- What the incoming priority may displace, before it is displaced.
pub eligible : ℕ → List Entry → Eviction
eligible p [] = memory_pressure
eligible p (e ∷ es) =
    let w = worst_priority (e ∷ es) in
    if ltb w p
    then lower_priority_than_queued
    else if w == retention_priority_critical && p == retention_priority_critical
    then critical_not_evictable
    else evicted w

displace : Eviction → Act Eviction
unfolding evict_oldest_by_priority_locked
displace (evicted w) q = (evicted w, (evict_oldest_by_priority_locked w q).1)
displace other q = (other, q)

pub evict_one_eligible_locked : ℕ → Act Eviction
unfolding displace eligible
evict_one_eligible_locked p q = displace (eligible p q.queue) q
