-- ===== src/Core1/Health/Report.antt =====
-- core1.py: the health report as a message, and when it is queued.
use pico_dualcore.Prelude.{ℕ, suc, Bool, true, false, not, ◌&&◌, Option, none, some, [], ◌∷◌, ltb}
use pico_dualcore.Prelude.Int.{ℤ, sub_ℕ, floor_1000}
use pico_dualcore.Value.{
  Value, nil, Fields, end, field, none_value, bool_value, int_value, finite_float, str_value,
  list_value, tuple_value, dict_value, bytes_value,
}
use pico_dualcore.Config.Check.{lookup, get, is_empty}
use pico_dualcore.Message.{
  Serialized, payload, raised, memory_error, serialize_and_validate_message,
}
use pico_dualcore.Intercore.Outbound.{kind_health}
use pico_dualcore.Intercore.Outbound.Lane as Lane
use pico_dualcore.Intercore.Container.{status}
use pico_dualcore.Core0.Basics.{object, texts, int_of}
use pico_dualcore.Core1.State as Shared
use pico_dualcore.Core1.State.{
  World, Core1, escape, Result, ok, raise, Act, pure, throw, ◌>>=◌, uptime_ms, time_from, start_of,
}
use pico_dualcore.Core1.Health.{
  Facts, core_1_activity_threshold_ms, within, degraded_reasons, health_status,
}

abbrev pub retention_priority_health : ℕ
retention_priority_health = 70

abbrev pub fallback_min_free_heap_bytes : ℕ
fallback_min_free_heap_bytes = 61440

-- bool(v)
abbrev pub truth : Value → Bool
truth none_value = false
truth (bool_value b) = b
truth (int_value n) = ltb 0 n
truth (finite_float b n k) = ltb 0 n
truth (str_value s) = not (is_empty s)
truth (list_value nil) = false
truth (tuple_value nil) = false
truth (dict_value end) = false
truth (bytes_value []) = false
truth v = true

-- What the report reads beside the lanes: the tick counter's difference, gc.mem_free(), where it raises
-- nothing, the temperature, and the numbers of the devices.
pub record Sources : Type 0 where
  pub ticks_diff : ℕ → ℕ → ℤ
  pub heap : ℕ → Option ℕ
  pub cpu_temperature : ℕ → Value
  pub read_loop_sec : ℕ

-- The floor that the hardware mailbox names; a value that is no number would raise in the comparison.
abbrev pub named_floor : Option Value → Option ℕ
named_floor (some (int_value n)) = some n
named_floor o = none

abbrev pub minimum_free_heap : Value → Option ℕ
minimum_free_heap (dict_value (field k v fs)) =
    named_floor (lookup "minimum_free_heap_bytes" (field k v fs))
minimum_free_heap v = some fallback_min_free_heap_bytes

abbrev pub heap_or_zero : Option ℕ → ℕ
heap_or_zero none = 0
heap_or_zero (some n) = n

abbrev pub age_of : (ℕ → ℕ → ℤ) → ℕ → Value → Option ℤ
age_of ticks_diff now (int_value stamp) = some (ticks_diff now stamp)
age_of ticks_diff now v = none

-- The seconds since the synchronization, rounded down.
abbrev pub sync_age : ℕ → Value → Result Value
sync_age u (int_value sync) = ok (int_of (floor_1000 (sub_ℕ u sync)))
sync_age u v = raise escape

abbrev pub utc_sync_age_sec : ℕ → Value → Result Value
utc_sync_age_sec u (dict_value utc) = sync_age u (get "sync_uptime_ms" utc)
utc_sync_age_sec u v = ok none_value

abbrev pub utc_time : World → ℕ → Value → Result Value
utc_time w u (dict_value utc) = time_from w u (start_of (lookup "runtime_start_epoch_ms" utc))
utc_time w u v = ok none_value

abbrev pub is_synchronized : Value → Bool
is_synchronized (dict_value utc) = true
is_synchronized v = false

-- What is measured for a report.
pub record Measured : Type 0 where
  pub facts : Facts
  pub uptime : ℕ
  pub timestamp : Value
  pub sync_age_sec : Value
  pub cpu_temperature_c : Value
  pub rssi : Value
  pub core_1_active : Bool
  pub depth : ℕ
  pub evicted : ℕ
  pub rejected : ℕ

unfoldable pub health_message : ℕ → Measured → Value
unfolding degraded_reasons health_status
health_message read_loop_sec m =
    let f = m.facts in
    let reasons = degraded_reasons read_loop_sec f in
    let status = health_status reasons in
    let body = object (
      ("status", str_value status)
      ∷ ("degraded_reasons", list_value (texts reasons))
      ∷ ("cpu_temperature_c", m.cpu_temperature_c)
      ∷ ("network_stack_ready", bool_value f.network_stack_ready)
      ∷ ("wifi_connected", bool_value f.wifi_connected)
      ∷ ("wifi_rssi_dbm", m.rssi)
      ∷ ("mqtt_connected", bool_value f.mqtt_connected)
      ∷ ("core_1_active", bool_value m.core_1_active)
      ∷ ("free_heap_bytes", int_value f.free_heap)
      ∷ ("minimum_free_heap_bytes", int_value f.minimum_free_heap)
      ∷ ("devices_configured", int_value f.devices_configured)
      ∷ ("devices_active", int_value f.devices_active)
      ∷ ("outbound_queue_depth", int_value m.depth)
      ∷ ("outbound_evicted", int_value m.evicted)
      ∷ ("outbound_rejected", int_value m.rejected)
      ∷ ("utc_valid", bool_value f.utc_valid)
      ∷ ("utc_sync_age_sec", m.sync_age_sec)
      ∷ []) in
    dict_value (
      object (
        ("uptime_ms", int_value m.uptime)
        ∷ ("timestamp", m.timestamp)
        ∷ ("message_type", str_value "health")
        ∷ ("payload", dict_value body)
        ∷ []))

abbrev pub asked : {A : Type 0} → Result A → Act A
asked r c = (r, c)

abbrev pub some_or_escape : {A : Type 0} → Option A → Result A
some_or_escape none = raise escape
some_or_escape (some a) = ok a

module _ (w : World) (b : Sources) where
  -- The tick counter, and the next number of a reading.
  unfoldable pub ticks : Act ℕ
  ticks c = (ok (w.ticks_ms c.moment), record c { moment = suc c.moment })

  abbrev pub counting : (Core1 → ℕ × Core1) → Act ℕ
  counting f c = let (n, c') = f c in (ok n, c')

  -- What is measured, from the readings and the state after them.
  abbrev pub measured : Fields → ℕ × ℕ → ℕ → ℕ → Value → ℕ → Core1 → Act Measured
  measured network (configured, active) now u temperature heap c =
      let mailboxes = c.intercore.state_mailboxes in
      let lane = status c.intercore.outbound_queue in
      let age = age_of b.ticks_diff now mailboxes.core_1_activity_ms in
      (do
        floor ← asked (some_or_escape (minimum_free_heap mailboxes.hardware))
        sync ← asked (utc_sync_age_sec u mailboxes.utc_snapshot)
        timestamp ← asked (utc_time w u mailboxes.utc_snapshot)
        pure (record {
          facts = record {
            network_stack_ready = truth (get "network_stack_ready" network);
            wifi_connected = truth (get "wifi_connected" network);
            mqtt_connected = truth (get "mqtt_connected" network);
            core_1_activity_age_ms = age;
            free_heap = heap;
            minimum_free_heap = floor;
            devices_configured = configured;
            devices_active = active;
            utc_valid = is_synchronized mailboxes.utc_snapshot;
          };
          uptime = u;
          timestamp = timestamp;
          sync_age_sec = sync;
          cpu_temperature_c = temperature;
          rssi = get "rssi" network;
          core_1_active = within (core_1_activity_threshold_ms b.read_loop_sec) age;
          depth = lane.total_depth;
          evicted = lane.evicted_messages;
          rejected = lane.rejected_messages;
        }))

  -- The report over a network snapshot, with the numbers of the devices, those configured first.
  unfoldable pub measure : Fields → ℕ × ℕ → Act Measured
  unfolding ticks uptime_ms core_1_activity_threshold_ms
  measure network counts = do
    now ← ticks
    u ← counting (uptime_ms w)
    temperature ← (λ c. (ok (b.cpu_temperature c.moment), record c { moment = suc c.moment }))
    heap ← (λ c. (ok (heap_or_zero (b.heap c.moment)), record c { moment = suc c.moment }))
    λ c. measured network counts now u temperature heap c c

  -- A ValueError of the lane discards the report.
  abbrev pub put_report : Lane.Put → Result Bool
  put_report Lane.admitted = ok true
  put_report Lane.rejected = ok false
  put_report Lane.value_error = ok false
  put_report Lane.too_large = ok false
  put_report Lane.no_fuel = raise escape

  abbrev pub put_health : Serialized → Act Bool
  put_health (payload bs) c =
      let (r, q) =
        Lane.put_with_kind w.free kind_health (bytes_value bs) (int_value retention_priority_health)
          c.intercore.outbound_queue in
      (put_report r, record c { intercore = record c.intercore { outbound_queue = q } })
  put_health memory_error c = (raise Shared.memory_error, c)
  put_health (raised e) c = (ok false, c)

  unfoldable pub try_queue_health_message : Value → Act Bool
  try_queue_health_message message c =
      put_health (serialize_and_validate_message (w.json_dumps c.moment) message)
        (record c { moment = suc c.moment })

  abbrev pub report_if : Bool → Fields → ℕ × ℕ → Act (Option Bool)
  report_if false network counts = pure none
  report_if true network counts = do
    m ← measure network counts
    queued ← try_queue_health_message (health_message b.read_loop_sec m)
    pure (some queued)

  abbrev pub report_over : Value → ℕ × ℕ → Act (Option Bool)
  report_over (dict_value network) counts =
      report_if (truth (get "network_stack_ready" network) && truth (get "mqtt_connected" network))
        network counts
  report_over v counts = pure none

  -- Whether a report was made, and then whether the lane took it.
  unfoldable pub try_queue_health_message_intercore : ℕ × ℕ → Act (Option Bool)
  unfolding measure try_queue_health_message health_message
  try_queue_health_message_intercore counts c =
      report_over c.intercore.state_mailboxes.network_snapshot counts c
