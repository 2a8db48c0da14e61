-- ===== src/Intercore/Outbound/Admission.antt =====
-- The admission of an entry: _append_locked, _try_append_with_count_gate, _admit_heap_governed,
-- put_with_kind and put.
pub mod Append
pub mod Put
mod Tests
use pico_dualcore.Prelude.{
  ℕ, zero, suc, ◌+◌, Bool, true, false, String, Option, none, some, List, [], ◌∷◌, ◌++◌,
  if◌then◌else◌, ltb, leb, length,
}
use pico_dualcore.Intercore.Outbound.{
  Entry, OutboundQueue, Act, pure, ◌>>=◌, ◌>>◌, Done, acquire_queue, release_queue,
  acquire_admission, release_admission, collect, depth, below_count_limit_locked, reserve_restored,
  preferred_restored, Eviction, evicted, evict_one_eligible_locked,
}

-- list.pop() of a list that is not empty.
pub pop_last : List Entry → List Entry
pop_last [] = []
pop_last (e ∷ []) = []
pop_last (e ∷ (f ∷ es)) = e ∷ pop_last (f ∷ es)

abbrev pub is_evicted : Eviction → Bool
is_evicted (evicted w) = true
is_evicted _ = false

-- The entry dictionary, a new object, at the end of the queue.
pub append : String → List ℕ → ℕ → Act Entry
append kind payload_bytes retention_priority q =
    let entry : Entry = record {
      ident = q.next_ident;
      kind = kind;
      retention_priority = retention_priority;
      payload_bytes = payload_bytes;
    } in
    (entry, record q { queue = q.queue ++ entry ∷ []; next_ident = suc q.next_ident })

-- The counters of an append that stays, or its undoing.
pub settle_append : ℕ → Bool → Act Bool
unfolding pop_last
settle_append size false q = (false, record q { queue = pop_last q.queue })
settle_append size true q =
    let bytes = q.queued_bytes + size in
    (
      true,
      record q {
        queued_bytes = bytes;
        high_watermark = if ltb q.high_watermark (depth q) then depth q else q.high_watermark;
        high_watermark_bytes =
            if ltb q.high_watermark_bytes bytes then bytes else q.high_watermark_bytes;
      },
    )

abbrev when : Bool → Act Done → Act Done
when true m = m
when false m = pure tt

abbrev pub get_room : Act Bool
get_room q = (below_count_limit_locked q, q)

module _ (free : ℕ → ℕ) (kind : String) (payload_bytes : List ℕ) (retention_priority : ℕ) where
  pub append_locked : Act Bool
  unfolding append settle_append
  append_locked = do
    append kind payload_bytes retention_priority
    restored ← reserve_restored free
    settle_append (length payload_bytes) restored

  -- gc.collect() after an append that was undone.
  after_append : Bool → Act Bool
  after_append true = pure true
  after_append false = do collect; pure false

  -- At the count ceiling: an append after a displacement only.
  make_room : Bool → Act Bool
  unfolding append_locked after_append
  make_room true = do
    release_queue
    collect
    acquire_queue
    appended ← append_locked
    release_queue
    after_append appended
  make_room false = do release_queue; pure false

  by_room : Bool → Act Bool
  unfolding append_locked after_append make_room
  by_room true = do appended ← append_locked; release_queue; after_append appended
  by_room false = do
    eviction ← evict_one_eligible_locked retention_priority
    make_room (is_evicted eviction)

  unfoldable pub try_append_with_count_gate : Act Bool
  unfolding by_room
  try_append_with_count_gate = do acquire_queue; room ← get_room; by_room room

  count_rejection : Act Done
  count_rejection q = (tt, record q { messages_rejected = q.messages_rejected + 1 })

  -- The end of a round of the loop: `none` goes on, `some false` rejects.
  displaced_or_rejected : Bool → Act (Option Bool)
  unfolding count_rejection
  displaced_or_rejected true = do release_queue; collect; pure none
  displaced_or_rejected false = do count_rejection; release_queue; pure (some false)

  displace_next : Bool → Act (Option Bool)
  unfolding displaced_or_rejected
  displace_next true = pure (some true)
  displace_next false = do
    acquire_queue
    eviction ← evict_one_eligible_locked retention_priority
    displaced_or_rejected (is_evicted eviction)

  gate_if : Bool → Act Bool
  gate_if true = try_append_with_count_gate
  gate_if false = pure false

  -- One round of `while True` under hard pressure.
  pub hard_round : Act (Option Bool)
  unfolding gate_if displace_next
  hard_round = do
    restored ← reserve_restored free
    appended ← gate_if restored
    displace_next appended

  again : Option Bool → Act (Option Bool) → Act (Option Bool)
  again (some result) next = pure (some result)
  again none next = next

  -- The loop on fuel; `none` means that the fuel ran out.
  pub hard_pressure : ℕ → Act (Option Bool)
  unfolding hard_round again
  hard_pressure zero q = (none, q)
  hard_pressure (suc fuel) q = (do result ← hard_round; again result (hard_pressure fuel)) q

  collect_unless : Bool → Act Done
  collect_unless true = pure tt
  collect_unless false = collect

  -- Under soft pressure one eligible entry is displaced first, if there is one.
  soft_pressure : Bool → Act Bool
  soft_pressure false = pure false
  soft_pressure true = do
    acquire_queue
    eviction ← evict_one_eligible_locked retention_priority
    release_queue
    collect_unless (if is_evicted eviction then false else true)
    try_append_with_count_gate

  by_reserve : Bool → Act Bool
  unfolding soft_pressure collect_unless
  by_reserve true = try_append_with_count_gate
  by_reserve false = do restored ← reserve_restored free; soft_pressure restored

  or_hard : ℕ → Bool → Act (Option Bool)
  unfolding hard_pressure
  or_hard fuel true = pure (some true)
  or_hard fuel false = hard_pressure fuel

  -- The loop takes an entry off the queue in each round that goes on, so this fuel is enough.
  pub enough_fuel : OutboundQueue → ℕ
  enough_fuel q = suc (length q.queue)

  unfoldable pub admit_heap_governed : Act (Option Bool)
  unfolding by_reserve or_hard enough_fuel
  admit_heap_governed q =
      (do
        acquire_admission
        preferred ← preferred_restored free
        collect_unless preferred
        normal ← preferred_restored free
        admitted ← by_reserve normal
        result ← or_hard (enough_fuel q) admitted
        release_admission
        pure result)
        q
