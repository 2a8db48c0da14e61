-- ===== src/Config/Settings.antt =====
-- validate_config of config.py: the whole configuration.
pub mod Limits
pub mod Topics
pub mod Foreign
pub mod Tests
use Prim.Native.Char.{code}
use Prim.Native.String.{String, len, count}
use text.Mathlib.Text.{◌==◌ as str_eq}
use pico_dualcore.Prelude.{
  ℕ, zero, suc, ◌+◌, ◌-◌, ◌*◌, Bool, true, false, not, ◌&&◌, ◌||◌, Option, none, some, List, [],
  ◌∷◌, if◌then◌else◌, leb, ltb, ◌==◌,
}
use pico_dualcore.Value.{
  Value, Items, nil, cons, Fields, none_value, int_value, neg_value, str_value, list_value,
  dict_value, is_int,
}
use pico_dualcore.Storage.{missing_key, unknown_config_fields, invalid_config_schema_version}
use pico_dualcore.Config.Check.{
  Check, accepted, refused, foreign, ◌>>=◌, ◌>>◌, Passed, pass, invalid, require, get, has_key,
  item, text_member, as_object, is_empty,
}
use pico_dualcore.Config.Definition.{non_empty_string, bytes_within}
use pico_dualcore.Config.Devices.{validate_devices, count_items}
use pico_dualcore.Config.Unknown.{unknown_config_paths}

abbrev pub mqtt_topic_keys : List String
mqtt_topic_keys =
    "mqtt_topic_telemetry" ∷ "mqtt_topic_log" ∷ "mqtt_topic_command" ∷ "mqtt_topic_command_response"
    ∷ "mqtt_topic_info_request" ∷ "mqtt_topic_info_response" ∷ "mqtt_topic_network_probe"
    ∷ "mqtt_topic_health" ∷ []

abbrev pub required_keys : List String
required_keys =
    "config_schema_version" ∷ "source" ∷ "read_loop_sec" ∷ "device_initialization_attempts"
    ∷ "device_initialization_retry_delay_ms" ∷ "device_read_failure_threshold" ∷ "devices"
    ∷ "mqtt_broker_ip_address" ∷ "mqtt_keepalive_sec" ∷ "mqtt_command_poll_ms"
    ∷ "mqtt_outbound_publish_delay_ms" ∷ "mqtt_broker_response_timeout_sec"
    ∷ "datetime_sync_interval_min" ∷ "network_snapshot_interval_sec" ∷ "network_probe_timeout_sec"
    ∷ "mqtt_topic_telemetry" ∷ "mqtt_topic_log" ∷ "mqtt_topic_command"
    ∷ "mqtt_topic_command_response" ∷ "mqtt_topic_info_request" ∷ "mqtt_topic_info_response"
    ∷ "mqtt_topic_network_probe" ∷ "mqtt_topic_health" ∷ "health_interval_sec"
    ∷ "wifi_reconnect_delays_sec" ∷ "mqtt_reconnect_delays_sec" ∷ "outbound_queue_max_messages" ∷ []

-- 2^29 - 1
abbrev pub max_ticks_safe_interval_ms : ℕ
max_ticks_safe_interval_ms = 536870911

unfoldable pub all_present : List String → Fields → Bool
all_present [] config = true
all_present (k ∷ ks) config = has_key k config && all_present ks config

-- `for key in keys: check(config, key)`
pub each_key : (Value → Bool) → List String → Fields → Check Passed
each_key test [] config = pass
each_key test (k ∷ ks) config = do
  value ← item k config
  require (test value)
  each_key test ks config

-- The code points of a text.
pub codes : String → List ℕ
codes String.[] = []
codes (String.◌∷◌ c s) = code c ∷ codes s

-- ASCII without NUL, + (43) and # (35).
pub topic_chars : List ℕ → Bool
topic_chars [] = true
topic_chars (c ∷ cs) = (leb 1 c && leb c 127) && (not (c == 43) && not (c == 35)) && topic_chars cs

pub is_topic : Value → Bool
unfolding codes topic_chars
is_topic (str_value s) = not (is_empty s) && (leb (count s) 122 && topic_chars (codes s))
is_topic v = false

-- `seen` holds the topics before; a value that is no text cannot stand here.
distinct_topic : Value → List String → Check (List String)
distinct_topic (str_value s) seen = if text_member s seen then invalid else accepted (s ∷ seen)
distinct_topic v seen = foreign

pub each_distinct : List String → List String → Fields → Check Passed
unfolding distinct_topic
each_distinct seen [] config = pass
each_distinct seen (k ∷ ks) config = do
  value ← item k config
  seen' ← distinct_topic value seen
  each_distinct seen' ks config

-- value.split("."): the first part and the others.
split_dots : List ℕ → List ℕ × List (List ℕ)
split_dots [] = ([], [])
split_dots (c ∷ cs) =
    let (part, parts) = split_dots cs in if c == 46 then ([], part ∷ parts) else (c ∷ part, parts)

abbrev is_digit : ℕ → Bool
is_digit c = leb 48 c && leb c 57

-- One to three digits, the first not 0 unless alone, with a value of at most 255.
is_octet : List ℕ → Bool
is_octet (a ∷ []) = is_digit a
is_octet (a ∷ (b ∷ [])) = (is_digit a && is_digit b) && not (a == 48)
is_octet (a ∷ (b ∷ (c ∷ []))) =
    ((is_digit a && is_digit b) && (is_digit c && not (a == 48)))
    && leb ((a - 48) * 100 + (b - 48) * 10 + (c - 48)) 255
is_octet part = false

is_quad : List ℕ × List (List ℕ) → Bool
unfolding is_octet
is_quad (a, b ∷ (c ∷ (d ∷ []))) = (is_octet a && is_octet b) && (is_octet c && is_octet d)
is_quad parts = false

pub is_ipv4_address : String → Bool
unfolding codes split_dots is_quad
is_ipv4_address s = is_quad (split_dots (codes s))

-- str.split is asked of a value that is a text by now.
require_ipv4 : Value → Check Passed
unfolding is_ipv4_address
require_ipv4 (str_value s) = require (is_ipv4_address s)
require_ipv4 v = foreign

abbrev pub positive_integer : Value → Bool
positive_integer (int_value n) = ltb 0 n
positive_integer v = false

abbrev pub non_negative_integer : Value → Bool
non_negative_integer (int_value n) = true
non_negative_integer v = false

-- `if config[key] > bound: raise`, and the same for `<`: an order between integers.
abbrev require_at_most : ℕ → Value → Check Passed
require_at_most bound (int_value n) = require (leb n bound)
require_at_most bound v = foreign

abbrev require_at_least : ℕ → Value → Check Passed
require_at_least bound (int_value n) = require (leb bound n)
require_at_least bound v = foreign

pub at_most : String → ℕ → Fields → Check Passed
at_most key bound config = do value ← item key config; require_at_most bound value

pub at_least : String → ℕ → Fields → Check Passed
at_least key bound config = do value ← item key config; require_at_least bound value

abbrev require_ticks_safe : ℕ → Value → Check Passed
require_ticks_safe ms_per_unit (int_value n) =
    require (leb (n * ms_per_unit) max_ticks_safe_interval_ms)
require_ticks_safe ms_per_unit v = foreign

pub require_ticks_safe_interval : String → ℕ → Fields → Check Passed
require_ticks_safe_interval key ms_per_unit config = do
  value ← item key config
  require_ticks_safe ms_per_unit value

pub each_delay : Items → Check Passed
each_delay nil = pass
each_delay (cons v vs) = do require (non_negative_integer v); require_at_most 600 v; each_delay vs

pub delays : Value → Check Passed
unfolding each_delay
delays (list_value (cons v vs)) =
    if ltb 32 (count_items (cons v vs)) then invalid else each_delay (cons v vs)
delays v = invalid

pub validate_delays : String → Fields → Check Passed
unfolding delays
validate_delays key config = do value ← item key config; delays value

config_schema_version : ℕ
config_schema_version = 10

schema_version : Value → Check Passed
unfolding config_schema_version
schema_version (int_value n) =
    if n == config_schema_version then pass else refused invalid_config_schema_version []
schema_version (neg_value n) = refused invalid_config_schema_version []
schema_version v = invalid

abbrev pub positive_keys : List String
positive_keys =
    "read_loop_sec" ∷ "device_initialization_attempts" ∷ "device_read_failure_threshold"
    ∷ "mqtt_keepalive_sec" ∷ "mqtt_command_poll_ms" ∷ "mqtt_broker_response_timeout_sec"
    ∷ "datetime_sync_interval_min" ∷ "network_snapshot_interval_sec" ∷ "network_probe_timeout_sec"
    ∷ "health_interval_sec" ∷ "outbound_queue_max_messages" ∷ []

unfoldable pub refuse_unknown : List String → Check Passed
refuse_unknown [] = pass
refuse_unknown (s ∷ ss) = refused unknown_config_fields (s ∷ ss)

unfoldable pub check_keys : Fields → Check Passed
unfolding refuse_unknown
check_keys config = do
  unknown ← unknown_config_paths required_keys config
  refuse_unknown unknown
  if all_present required_keys config then pass else refused missing_key []

-- The schema, the texts and the topics.
pub check_texts : Fields → Check Passed
unfolding schema_version require_ipv4 each_distinct is_topic each_key
check_texts config = do
  version ← item "config_schema_version" config
  schema_version version
  each_key non_empty_string ("source" ∷ "mqtt_broker_ip_address" ∷ []) config
  each_key is_topic mqtt_topic_keys config
  each_distinct [] mqtt_topic_keys config
  source ← item "source" config
  require (bytes_within 64 source)
  address ← item "mqtt_broker_ip_address" config
  require_ipv4 address

-- The numbers and their limits.
pub check_limits : Fields → Check Passed
check_limits config = do
  each_key positive_integer positive_keys config
  at_least "mqtt_keepalive_sec" 5 config
  at_most "mqtt_keepalive_sec" 65535 config
  at_most "device_initialization_attempts" 10 config
  each_key non_negative_integer ("device_initialization_retry_delay_ms" ∷ []) config
  each_key non_negative_integer ("mqtt_outbound_publish_delay_ms" ∷ []) config
  at_most "mqtt_broker_response_timeout_sec" 5 config
  at_most "network_probe_timeout_sec" 30 config
  at_most "mqtt_outbound_publish_delay_ms" 60000 config
  at_most "mqtt_command_poll_ms" 10000 config
  at_most "device_initialization_retry_delay_ms" 60000 config
  at_most "device_read_failure_threshold" 1000 config
  at_most "outbound_queue_max_messages" 256 config

pub check_intervals : Fields → Check Passed
check_intervals config = do
  require_ticks_safe_interval "read_loop_sec" 1000 config
  require_ticks_safe_interval "health_interval_sec" 1000 config
  require_ticks_safe_interval "network_snapshot_interval_sec" 1000 config
  require_ticks_safe_interval "mqtt_broker_response_timeout_sec" 1000 config
  require_ticks_safe_interval "datetime_sync_interval_min" 60000 config
  require_ticks_safe_interval "mqtt_command_poll_ms" 1 config
  require_ticks_safe_interval "mqtt_outbound_publish_delay_ms" 1 config

unfoldable pub check_lists : Fields → Check Passed
unfolding validate_delays
check_lists config = do
  validate_delays "wifi_reconnect_delays_sec" config
  validate_delays "mqtt_reconnect_delays_sec" config
  devices ← item "devices" config
  validate_devices devices
  pass

-- The result is the configuration itself.
unfoldable pub validate_config : Value → Check Fields
validate_config value = do
  config ← as_object value
  check_keys config
  check_texts config
  check_limits config
  check_intervals config
  check_lists config
  accepted config
