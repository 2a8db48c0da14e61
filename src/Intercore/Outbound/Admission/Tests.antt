-- ===== src/Intercore/Outbound/Admission/Tests.antt =====
-- The theorems of the outbound lane at a queue under memory pressure.
use pico_dualcore.Prelude.{
  ℕ, ◌≤◌, false, none, some, List, [], ◌∷◌, ◌++◌, ◌≡◌, inr, refl, length, arith, if◌then◌else◌, ltb,
  Bool,
}
use pico_dualcore.Intercore.Outbound.{
  Entry, OutboundQueue, ◌>>=◌, acquire_queue, release_queue, acquire_admission, release_admission,
  collect, reserve_restored, preferred_restored, below_count_limit_locked,
  evict_one_eligible_locked, worst_priority, pop_oldest,
}
use pico_dualcore.Intercore.Outbound.Admission.{
  append, pop_last, try_append_with_count_gate, admit_heap_governed,
}
use pico_dualcore.Intercore.Outbound.Invariant.{IsIdle}
use pico_dualcore.Intercore.Outbound.Lane.Laws.{admit_total, admit-IsIdle, admit_keeps_class, class}

abbrev entry : ℕ → ℕ → Entry
entry ident p = record {
  ident = ident;
  kind = "log";
  retention_priority = p;
  payload_bytes = 1 ∷ 2 ∷ [];
}

-- One CRITICAL and one INFO entry, at the count ceiling.
abbrev full : OutboundQueue
full = record {
  minimum_free_heap_bytes = 100;
  preferred_free_heap_bytes = 200;
  max_messages = some 2;
  queue = entry 0 10 ∷ entry 1 50 ∷ [];
  in_flight = none;
  high_watermark = 2;
  high_watermark_bytes = 4;
  queued_bytes = 4;
  messages_evicted = 0;
  telemetry_evicted = 0;
  messages_rejected = 0;
  serialization_rejected = 0;
  oversized_rejected = 0;
  oversized_discarded = 0;
  next_ident = 2;
  measured = 0;
  queue_held = false;
  admission_held = false;
  breach = false;
}

full-IsIdle : IsIdle full
full-IsIdle = ground arith

-- The heap stays under the floor for two measurements and recovers, or never does.
abbrev recovering : ℕ → ℕ
recovering n = if ltb n 2 then 50 else 150

abbrev exhausted : ℕ → ℕ
exhausted n = 50

admit_total_example :
    (b : Bool) × ((admit_heap_governed recovering "log" (7 ∷ []) 20 full).0 ≡ some b)
admit_total_example = admit_total recovering "log" (7 ∷ []) 20 full full-IsIdle (omega arith)

admit-IsIdle_example : IsIdle (admit_heap_governed exhausted "log" (7 ∷ []) 20 full).1
admit-IsIdle_example = admit-IsIdle exhausted "log" (7 ∷ []) 20 full full-IsIdle (omega arith)

refused_run : (admit_heap_governed exhausted "log" (7 ∷ []) 20 full).0 ≡ some false
unfolding admit_heap_governed try_append_with_count_gate append pop_last ◌>>=◌ acquire_queue
    release_queue acquire_admission release_admission collect reserve_restored preferred_restored
    below_count_limit_locked evict_one_eligible_locked worst_priority pop_oldest
refused_run = refl

admit_keeps_class_example :
    (added : List Entry) × (class 10 (admit_heap_governed exhausted "log" (7 ∷ []) 20 full).1.queue
      ≡ class 10 full.queue ++ class 10 added)
    × (length added ≤ 1)
admit_keeps_class_example =
    admit_keeps_class exhausted "log" (7 ∷ []) 20 full full-IsIdle (omega arith) 10 (inr refl)

abbrev flying : OutboundQueue
flying = record full { queue = entry 1 50 ∷ []; in_flight = some (entry 0 10) }
