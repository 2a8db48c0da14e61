-- ===== src/Intercore/Container.antt =====
-- InterCore of intercore.py with the construction of its lanes, the state mailboxes, and the status
-- of the outbound queue. `none` is the ValueError of a constructor, and `false` that of a setter; a
-- mailbox's lock makes each operation one step.
mod Tests
use pico_dualcore.Prelude.{
  ℕ, suc, zero, ◌+◌, ◌≤◌, ◌<◌, Bool, true, false, Option, none, some, List, [], ◌≡◌, refl, arith,
  if◌then◌else◌, ltb, length, is_some,
}
use pico_dualcore.Value.{Value, none_value, int_value, dict_value, is_dict, is_int}
use pico_dualcore.Intercore.Outbound.{OutboundQueue, Entry, depth, in_flight_count}
use pico_dualcore.Intercore.Outbound.Invariant.{IsIdle}
use pico_dualcore.Intercore.Events.{EventQueue}

positive : ℕ → Option ℕ
positive zero = none
positive (suc n) = some (suc n)

require_positive_integer : Value → Option ℕ
unfolding positive
require_positive_integer (int_value n) = positive n
require_positive_integer _ = none

-- The ceiling: None is unbounded, and the inner `none` says so.
require_ceiling : Value → Option (Option ℕ)
unfolding require_positive_integer
require_ceiling none_value = some none
require_ceiling v = ceiling (require_positive_integer v)
  where
    ceiling : Option ℕ → Option (Option ℕ)
    ceiling none = none
    ceiling (some n) = some (some n)

abbrev pub empty_queue : ℕ → ℕ → Option ℕ → OutboundQueue
empty_queue minimum preferred max_messages = record {
  minimum_free_heap_bytes = minimum;
  preferred_free_heap_bytes = preferred;
  max_messages = max_messages;
  queue = [];
  in_flight = none;
  high_watermark = 0;
  high_watermark_bytes = 0;
  queued_bytes = 0;
  messages_evicted = 0;
  telemetry_evicted = 0;
  messages_rejected = 0;
  serialization_rejected = 0;
  oversized_rejected = 0;
  oversized_discarded = 0;
  next_ident = 0;
  measured = 0;
  queue_held = false;
  admission_held = false;
  breach = false;
}

-- The thresholds: a preferred reserve of None is the floor.
thresholds : Value → Value → Option (ℕ × ℕ)
unfolding require_positive_integer
thresholds minimum preferred = elim (require_positive_integer minimum) [
  | none ↦ none
  | some low ↦ elim (require_positive_integer (given preferred low)) [
    | none ↦ none
    | some high ↦ if ltb high low then none else some (low, high)
  ]
]
  where
    given : Value → ℕ → Value
    given none_value low = int_value low
    given v low = v

pub new_outbound_queue : Value → Value → Value → Option OutboundQueue
unfolding thresholds require_ceiling
new_outbound_queue minimum preferred max_messages = elim (thresholds minimum preferred) [
  | none ↦ none
  | some (low, high) ↦ elim (require_ceiling max_messages) [
    | none ↦ none
    | some ceiling ↦ some (empty_queue low high ceiling)
  ]
]

abbrev pub empty_events : ℕ → EventQueue
empty_events minimum = record {
  minimum_free_heap_bytes = minimum;
  queue = [];
  high_watermark = 0;
  rejected = 0;
  measured = 0;
}

pub record StateMailboxes : Type 0 where
  pub network_snapshot : Value
  pub utc_snapshot : Value
  pub core_1_activity_ms : Value
  pub hardware : Value

abbrev pub empty_mailboxes : StateMailboxes
empty_mailboxes = record {
  network_snapshot = none_value;
  utc_snapshot = none_value;
  core_1_activity_ms = none_value;
  hardware = none_value;
}

unfoldable pub set_network_snapshot : Value → StateMailboxes → Bool × StateMailboxes
set_network_snapshot v s =
    if is_dict v then (true, record s { network_snapshot = v }) else (false, s)

unfoldable pub set_utc_snapshot : Value → StateMailboxes → Bool × StateMailboxes
set_utc_snapshot v s = if is_dict v then (true, record s { utc_snapshot = v }) else (false, s)

unfoldable pub set_core_1_activity_ms : Value → StateMailboxes → Bool × StateMailboxes
set_core_1_activity_ms v s =
    if is_int v then (true, record s { core_1_activity_ms = v }) else (false, s)

pub set_hardware : Value → StateMailboxes → Bool × StateMailboxes
set_hardware v s = if is_dict v then (true, record s { hardware = v }) else (false, s)

pub record InterCore : Type 0 where
  pub outbound_queue : OutboundQueue
  pub event_queue : EventQueue
  pub state_mailboxes : StateMailboxes

pub new_inter_core : Value → Value → Value → Option InterCore
unfolding new_outbound_queue
new_inter_core minimum preferred max_messages =
    elim (new_outbound_queue minimum preferred max_messages) [
      | none ↦ none
      | some q ↦ some (record {
        outbound_queue = q;
        event_queue = empty_events q.minimum_free_heap_bytes;
        state_mailboxes = empty_mailboxes;
      })
    ]

pub record QueueStatus : Type 0 where
  pub pending : ℕ
  pub total_depth : ℕ
  pub flying : Bool
  pub ceiling : Option ℕ
  pub retained_bytes : ℕ
  pub peak_depth : ℕ
  pub peak_bytes : ℕ
  pub evicted_messages : ℕ
  pub evicted_telemetry : ℕ
  pub rejected_messages : ℕ
  pub rejected_serialization : ℕ
  pub rejected_oversized : ℕ
  pub discarded_oversized : ℕ

pub status : OutboundQueue → QueueStatus
status q = record {
  pending = length q.queue;
  total_depth = depth q;
  flying = is_some q.in_flight;
  ceiling = q.max_messages;
  retained_bytes = q.queued_bytes;
  peak_depth = q.high_watermark;
  peak_bytes = q.high_watermark_bytes;
  evicted_messages = q.messages_evicted;
  evicted_telemetry = q.telemetry_evicted;
  rejected_messages = q.messages_rejected;
  rejected_serialization = q.serialization_rejected;
  rejected_oversized = q.oversized_rejected;
  discarded_oversized = q.oversized_discarded;
}

-- A container that is constructed has an outbound lane that keeps its invariant, and both lanes
-- have the same positive floor.
pub new_inter_core_lem :
    (minimum preferred max_messages : Value) (c : InterCore)
    → new_inter_core minimum preferred max_messages ≡ some c
    → IsIdle c.outbound_queue
      × (c.event_queue.minimum_free_heap_bytes ≡ c.outbound_queue.minimum_free_heap_bytes)
      × (0 < c.outbound_queue.minimum_free_heap_bytes)
unfolding new_inter_core new_outbound_queue thresholds require_ceiling require_positive_integer
new_inter_core_lem minimum preferred max_messages c h = ground arith

-- With thresholds in order and a positive ceiling the construction does not raise.
pub new_inter_core_total :
    (low high n : ℕ)
    → 0 < low
    → low ≤ high
    → 1 ≤ n
    → (c : InterCore) × (new_inter_core (int_value low) (int_value high) (int_value n) ≡ some c)
      × (c.outbound_queue.max_messages ≡ some n)
unfolding new_inter_core new_outbound_queue thresholds require_ceiling require_positive_integer
    positive
new_inter_core_total (suc low) (suc high) (suc n) p q r = (
  record {
    outbound_queue = empty_queue (suc low) (suc high) (some (suc n));
    event_queue = empty_events (suc low);
    state_mailboxes = empty_mailboxes;
  },
  ground arith,
  refl,
)
new_inter_core_total zero high n p q r = absurd (omega arith)
new_inter_core_total (suc low) zero n p q r = absurd (omega arith)
new_inter_core_total (suc low) (suc high) zero p q r = absurd (omega arith)

-- The status of a lane between two operations is consistent: a message in flight makes the depth one
-- more than the pending ones, and no figure exceeds its peak.
pub status_lem :
    (q : OutboundQueue)
    → IsIdle q
    → let s = status q in
      (s.total_depth ≡ s.pending + (if s.flying then 1 else 0))
      × (s.total_depth ≤ s.peak_depth)
      × (s.retained_bytes ≤ s.peak_bytes)
      × (s.evicted_telemetry ≤ s.evicted_messages)
unfolding status
status_lem q h = (total q.in_flight, h.valid.depth_seen, h.valid.bytes_seen, h.valid.counted)
  where
    total :
        (o : Option Entry)
        → length q.queue + in_flight_count o ≡ length q.queue + (if is_some o then 1 else 0)
    total none = refl
    total (some e) = refl
