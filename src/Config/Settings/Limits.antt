-- ===== src/Config/Settings/Limits.antt =====
-- validate_config: the numbers of a configuration that is accepted.
use pico_dualcore.Prelude.{
  ℕ, ◌*◌, ◌≤◌, Bool, true, String, some, List, [], ◌∷◌, ◌≡◌, All, arith, leb,
}
use pico_dualcore.Value.{Value, Fields, int_value}
use pico_dualcore.Config.Check.{accepted, Passed, require, item, lookup, as_object}
use pico_dualcore.Config.Check.Laws.{split, required_true, item_lem}
use pico_dualcore.Config.Settings.{
  each_key, at_most, at_least, require_at_most, require_at_least, require_ticks_safe_interval,
  require_ticks_safe, positive_integer, non_negative_integer, positive_keys, check_limits,
  check_intervals, check_keys, check_texts, check_lists, validate_config,
  max_ticks_safe_interval_ms,
}

-- The field is an integer in the range.
abbrev pub Number : String → ℕ → ℕ → Fields → Type 0
Number k lo hi config = (n : ℕ) × (lookup k config ≡ some (int_value n)) × (lo ≤ n) × (n ≤ hi)

abbrev Meets : (Value → Bool) → Fields → String → Type 0
Meets test config k = (v : Value) × (lookup k config ≡ some v) × (test v ≡ true)

pub each_key_lem :
    (test : Value → Bool) (ks : List String) (config : Fields) {u : Passed}
    → each_key test ks config ≡ accepted u
    → All (Meets test config) ks
unfolding each_key
each_key_lem test [] config h = tt
each_key_lem test (k ∷ ks) config h =
    let (v, e, h₁) = split (item k config) _ h in
    let (u₁, e₁, h₂) = split (require (test v)) _ h₁ in
    ((v, item_lem k config e, required_true (test v) e₁), each_key_lem test ks config h₂)

at_most_lem :
    (k : String) (bound : ℕ) (config : Fields) {u : Passed}
    → at_most k bound config ≡ accepted u
    → (n : ℕ) × (lookup k config ≡ some (int_value n)) × (n ≤ bound)
unfolding at_most
at_most_lem k bound config h =
    let (v, e, h₁) = split (item k config) _ h in go v (item_lem k config e) h₁
  where
    go :
        (v : Value) {u : Passed}
        → lookup k config ≡ some v
        → require_at_most bound v ≡ accepted u
        → (n : ℕ) × (lookup k config ≡ some (int_value n)) × (n ≤ bound)
    go (int_value n) e h = (n, e, let b = required_true (leb n bound) h in ground arith)
    go v e h = cc

at_least_lem :
    (k : String) (bound : ℕ) (config : Fields) {u : Passed}
    → at_least k bound config ≡ accepted u
    → (n : ℕ) × (lookup k config ≡ some (int_value n)) × (bound ≤ n)
unfolding at_least
at_least_lem k bound config h =
    let (v, e, h₁) = split (item k config) _ h in go v (item_lem k config e) h₁
  where
    go :
        (v : Value) {u : Passed}
        → lookup k config ≡ some v
        → require_at_least bound v ≡ accepted u
        → (n : ℕ) × (lookup k config ≡ some (int_value n)) × (bound ≤ n)
    go (int_value n) e h = (n, e, let b = required_true (leb bound n) h in ground arith)
    go v e h = cc

require_ticks_safe_interval_lem :
    (k : String) (ms : ℕ) (config : Fields) {u : Passed}
    → require_ticks_safe_interval k ms config ≡ accepted u
    → (n : ℕ) × (lookup k config ≡ some (int_value n)) × (n * ms ≤ max_ticks_safe_interval_ms)
unfolding require_ticks_safe_interval
require_ticks_safe_interval_lem k ms config h =
    let (v, e, h₁) = split (item k config) _ h in go v (item_lem k config e) h₁
  where
    go :
        (v : Value) {u : Passed}
        → lookup k config ≡ some v
        → require_ticks_safe ms v ≡ accepted u
        → (n : ℕ) × (lookup k config ≡ some (int_value n)) × (n * ms ≤ max_ticks_safe_interval_ms)
    go (int_value n) e h =
        (n, e, let b = required_true (leb (n * ms) max_ticks_safe_interval_ms) h in ground arith)
    go v e h = cc

abbrev From : ℕ → Fields → String → Type 0
From lo config k = (n : ℕ) × (lookup k config ≡ some (int_value n)) × (lo ≤ n)

abbrev To : ℕ → Fields → String → Type 0
To hi config k = (n : ℕ) × (lookup k config ≡ some (int_value n)) × (n ≤ hi)

positive_lem : (k : String) (config : Fields) → Meets positive_integer config k → From 1 config k
positive_lem k config (int_value n, e, t) = (n, e, ground arith)
positive_lem k config (v, e, t) = cc

non_negative_lem :
    (k : String) (config : Fields) → Meets non_negative_integer config k → From 0 config k
non_negative_lem k config (int_value n, e, t) = (n, e, omega arith)
non_negative_lem k config (v, e, t) = cc

number_of : Value → ℕ
number_of (int_value n) = n
number_of v = 0

within :
    (k : String) (lo hi : ℕ) (config : Fields)
    → From lo config k
    → To hi config k
    → Number k lo hi config
within k lo hi config (n, e, a) (m, f, b) = (n, e, a, ground arith)

scaled :
    (k : String) (ms hi : ℕ) (config : Fields)
    → ((n : ℕ) → n * ms ≤ max_ticks_safe_interval_ms → n ≤ hi)
    → (n : ℕ) × (lookup k config ≡ some (int_value n)) × (n * ms ≤ max_ticks_safe_interval_ms)
    → To hi config k
scaled k ms hi config f (n, e, a) = (n, e, f n a)

-- The ranges of the numbers, by what they are used for: counts, seconds, minutes, milliseconds.
pub record Limits (config : Fields) : Type 0 where
  pub read_loop_sec : Number "read_loop_sec" 1 536870 config
  pub health_interval_sec : Number "health_interval_sec" 1 536870 config
  pub network_snapshot_interval_sec : Number "network_snapshot_interval_sec" 1 536870 config
  pub datetime_sync_interval_min : Number "datetime_sync_interval_min" 1 8947 config
  pub mqtt_keepalive_sec : Number "mqtt_keepalive_sec" 5 65535 config
  pub mqtt_command_poll_ms : Number "mqtt_command_poll_ms" 1 10000 config
  pub mqtt_broker_response_timeout_sec : Number "mqtt_broker_response_timeout_sec" 1 5 config
  pub mqtt_outbound_publish_delay_ms : Number "mqtt_outbound_publish_delay_ms" 0 60000 config
  pub network_probe_timeout_sec : Number "network_probe_timeout_sec" 1 30 config
  pub device_initialization_attempts : Number "device_initialization_attempts" 1 10 config
  pub device_initialization_retry_delay_ms :
      Number "device_initialization_retry_delay_ms" 0 60000 config
  pub device_read_failure_threshold : Number "device_read_failure_threshold" 1 1000 config
  pub outbound_queue_max_messages : Number "outbound_queue_max_messages" 1 256 config

-- The part that check_limits finds.
record Checked (config : Fields) : Type 0 where
  pub positives : All (Meets positive_integer config) positive_keys
  pub keepalive_low : From 5 config "mqtt_keepalive_sec"
  pub keepalive_high : To 65535 config "mqtt_keepalive_sec"
  pub attempts : To 10 config "device_initialization_attempts"
  pub retry_low : From 0 config "device_initialization_retry_delay_ms"
  pub publish_low : From 0 config "mqtt_outbound_publish_delay_ms"
  pub response : To 5 config "mqtt_broker_response_timeout_sec"
  pub probe : To 30 config "network_probe_timeout_sec"
  pub publish_delay : To 60000 config "mqtt_outbound_publish_delay_ms"
  pub poll : To 10000 config "mqtt_command_poll_ms"
  pub retry : To 60000 config "device_initialization_retry_delay_ms"
  pub threshold : To 1000 config "device_read_failure_threshold"
  pub messages : To 256 config "outbound_queue_max_messages"

check_limits-Checked :
    (config : Fields) {u : Passed} → check_limits config ≡ accepted u → Checked config
unfolding check_limits
check_limits-Checked config h =
    let (u₁, e₁, h₁) = split (each_key positive_integer positive_keys config) _ h in
    let (u₂, e₂, h₂) = split (at_least "mqtt_keepalive_sec" 5 config) _ h₁ in
    let (u₃, e₃, h₃) = split (at_most "mqtt_keepalive_sec" 65535 config) _ h₂ in
    let (u₄, e₄, h₄) = split (at_most "device_initialization_attempts" 10 config) _ h₃ in
    let (u₅, e₅, h₅) =
      split (each_key non_negative_integer ("device_initialization_retry_delay_ms" ∷ []) config) _
        h₄ in
    let (u₆, e₆, h₆) =
      split (each_key non_negative_integer ("mqtt_outbound_publish_delay_ms" ∷ []) config) _ h₅ in
    let (u₇, e₇, h₇) = split (at_most "mqtt_broker_response_timeout_sec" 5 config) _ h₆ in
    let (u₈, e₈, h₈) = split (at_most "network_probe_timeout_sec" 30 config) _ h₇ in
    let (u₉, e₉, h₉) = split (at_most "mqtt_outbound_publish_delay_ms" 60000 config) _ h₈ in
    let (v₁, f₁, g₁) = split (at_most "mqtt_command_poll_ms" 10000 config) _ h₉ in
    let (v₂, f₂, g₂) = split (at_most "device_initialization_retry_delay_ms" 60000 config) _ g₁ in
    let (v₃, f₃, g₃) = split (at_most "device_read_failure_threshold" 1000 config) _ g₂ in
    record {
      positives = each_key_lem positive_integer positive_keys config e₁;
      keepalive_low = at_least_lem _ 5 config e₂;
      keepalive_high = at_most_lem _ 65535 config e₃;
      attempts = at_most_lem _ 10 config e₄;
      retry_low = non_negative_lem _ config (each_key_lem non_negative_integer _ config e₅).0;
      publish_low = non_negative_lem _ config (each_key_lem non_negative_integer _ config e₆).0;
      response = at_most_lem _ 5 config e₇;
      probe = at_most_lem _ 30 config e₈;
      publish_delay = at_most_lem _ 60000 config e₉;
      poll = at_most_lem _ 10000 config f₁;
      retry = at_most_lem _ 60000 config f₂;
      threshold = at_most_lem _ 1000 config f₃;
      messages = at_most_lem _ 256 config g₃;
    }

record Safe (config : Fields) : Type 0 where
  pub read_loop : To 536870 config "read_loop_sec"
  pub health : To 536870 config "health_interval_sec"
  pub snapshot : To 536870 config "network_snapshot_interval_sec"
  pub datetime : To 8947 config "datetime_sync_interval_min"

check_intervals-Safe :
    (config : Fields) {u : Passed} → check_intervals config ≡ accepted u → Safe config
unfolding check_intervals
check_intervals-Safe config h =
    let (u₁, e₁, h₁) = split (require_ticks_safe_interval "read_loop_sec" 1000 config) _ h in
    let (u₂, e₂, h₂) = split (require_ticks_safe_interval "health_interval_sec" 1000 config) _ h₁ in
    let (u₃, e₃, h₃) =
      split (require_ticks_safe_interval "network_snapshot_interval_sec" 1000 config) _ h₂ in
    let (u₄, e₄, h₄) =
      split (require_ticks_safe_interval "mqtt_broker_response_timeout_sec" 1000 config) _ h₃ in
    let (u₅, e₅, h₅) =
      split (require_ticks_safe_interval "datetime_sync_interval_min" 60000 config) _ h₄ in
    record {
      read_loop =
          scaled _ 1000 536870 config (λ n b. omega arith)
            (require_ticks_safe_interval_lem _ 1000 config e₁);
      health =
          scaled _ 1000 536870 config (λ n b. omega arith)
            (require_ticks_safe_interval_lem _ 1000 config e₂);
      snapshot =
          scaled _ 1000 536870 config (λ n b. omega arith)
            (require_ticks_safe_interval_lem _ 1000 config e₃);
      datetime =
          scaled _ 60000 8947 config (λ n b. omega arith)
            (require_ticks_safe_interval_lem _ 60000 config e₅);
    }

-- The steps of validate_config that accepted.
pub record Passes (value : Value) (config : Fields) : Type 0 where
  pub object : as_object value ≡ accepted config
  pub keys : check_keys config ≡ accepted tt
  pub texts : check_texts config ≡ accepted tt
  pub limits : check_limits config ≡ accepted tt
  pub intervals : check_intervals config ≡ accepted tt
  pub lists : check_lists config ≡ accepted tt

pub validate_config-Passes :
    (value : Value) {config : Fields}
    → validate_config value ≡ accepted config
    → Passes value config
unfolding validate_config
validate_config-Passes value {config} h =
    let (c, e, h₀) = split (as_object value) _ h in
    let (u₁, e₁, h₁) = split (check_keys c) _ h₀ in
    let (u₂, e₂, h₂) = split (check_texts c) _ h₁ in
    let (u₃, e₃, h₃) = split (check_limits c) _ h₂ in
    let (u₄, e₄, h₄) = split (check_intervals c) _ h₃ in
    let (u₅, e₅, h₅) = split (check_lists c) _ h₄ in
    let same : c ≡ config = cc in
    rw (← same)
      (record { object = e; keys = e₁; texts = e₂; limits = e₃; intervals = e₄; lists = e₅ })

-- The thirteen top-level numbers that validate_config compares with a range (the version and the device
-- and delay lists are not among them) are, in a configuration that is accepted, integers in their
-- ranges, so that none of their intervals in milliseconds exceeds 2^29 - 1, and the waits for the broker
-- stay within 5 seconds.
pub validate_config-Limits :
    (value : Value) {config : Fields} → validate_config value ≡ accepted config → Limits config
validate_config-Limits value {config} h =
    let p = validate_config-Passes value h in
    let c = check_limits-Checked config p.limits in
    let s = check_intervals-Safe config p.intervals in
    let (
      read_loop,
      (
        attempts,
        (
          threshold,
          (
            keepalive,
            (poll, (response, (datetime, (snapshot, (probe, (health, (messages, end))))))),
          ),
        ),
      ),
    ) =
      c.positives in
    record {
      read_loop_sec = within _ 1 536870 config (positive_lem _ config read_loop) s.read_loop;
      health_interval_sec = within _ 1 536870 config (positive_lem _ config health) s.health;
      network_snapshot_interval_sec =
          within _ 1 536870 config (positive_lem _ config snapshot) s.snapshot;
      datetime_sync_interval_min =
          within _ 1 8947 config (positive_lem _ config datetime) s.datetime;
      mqtt_keepalive_sec = within _ 5 65535 config c.keepalive_low c.keepalive_high;
      mqtt_command_poll_ms = within _ 1 10000 config (positive_lem _ config poll) c.poll;
      mqtt_broker_response_timeout_sec =
          within _ 1 5 config (positive_lem _ config response) c.response;
      mqtt_outbound_publish_delay_ms = within _ 0 60000 config c.publish_low c.publish_delay;
      network_probe_timeout_sec = within _ 1 30 config (positive_lem _ config probe) c.probe;
      device_initialization_attempts =
          within _ 1 10 config (positive_lem _ config attempts) c.attempts;
      device_initialization_retry_delay_ms = within _ 0 60000 config c.retry_low c.retry;
      device_read_failure_threshold =
          within _ 1 1000 config (positive_lem _ config threshold) c.threshold;
      outbound_queue_max_messages =
          within _ 1 256 config (positive_lem _ config messages) c.messages;
    }
