-- ===== src/Config/Split.antt =====
-- split_config of config.py: the configuration of each core.
mod Tests
use Prim.Native.String.{String}
use text.Mathlib.Text.{◌==◌ as str_eq}
use text.Mathlib.TextEquality.{eq_iff}
use pico_dualcore.Prelude.{
  Bool, true, false, not, ◌&&◌, ◌||◌, ◌⊎◌, Option, some, none, List, [], ◌∷◌, ◌++◌, ◌≡◌, refl, ap,
  ◌∙◌, sym, All, arith, Bool-cases, inl, inr,
}
use pico_dualcore.Value.{Value, Fields, end, field, str_value}
use pico_dualcore.Config.Check.{
  Check, accepted, ◌>>=◌, ◌>>◌, Passed, item, lookup, has_key, text_member, refused, foreign,
  present, or_foreign,
}
use pico_dualcore.Config.Check.Laws.{split}
use pico_dualcore.Config.Unknown.{unknown_config_paths}
use pico_dualcore.Config.Settings.{
  required_keys, all_present, check_keys, validate_config, refuse_unknown,
}
use pico_dualcore.Config.Settings.Limits.{validate_config-Passes}

-- The items of each dictionary: the key, and the key whose value of the configuration it gets.
abbrev pub core0_items : List (String × String)
core0_items =
    ("source", "source")
    ∷ ("mqtt_broker_ip_address", "mqtt_broker_ip_address")
    ∷ ("mqtt_topic_telemetry", "mqtt_topic_telemetry")
    ∷ ("mqtt_topic_log", "mqtt_topic_log")
    ∷ ("mqtt_topic_command", "mqtt_topic_command")
    ∷ ("mqtt_topic_command_response", "mqtt_topic_command_response")
    ∷ ("mqtt_topic_info_request", "mqtt_topic_info_request")
    ∷ ("mqtt_topic_info_response", "mqtt_topic_info_response")
    ∷ ("wifi_reconnect_delays_sec", "wifi_reconnect_delays_sec")
    ∷ ("mqtt_reconnect_delays_sec", "mqtt_reconnect_delays_sec")
    ∷ ("mqtt_keepalive_sec", "mqtt_keepalive_sec")
    ∷ ("mqtt_command_poll_ms", "mqtt_command_poll_ms")
    ∷ ("mqtt_outbound_publish_delay_ms", "mqtt_outbound_publish_delay_ms")
    ∷ ("mqtt_broker_response_timeout_sec", "mqtt_broker_response_timeout_sec")
    ∷ ("datetime_sync_interval_min", "datetime_sync_interval_min")
    ∷ ("network_snapshot_interval_sec", "network_snapshot_interval_sec")
    ∷ ("network_probe_timeout_sec", "network_probe_timeout_sec")
    ∷ ("mqtt_topic_network_probe", "mqtt_topic_network_probe")
    ∷ ("mqtt_topic_health", "mqtt_topic_health")
    ∷ []

abbrev pub core1_items : List (String × String)
core1_items =
    ("read_loop_sec", "read_loop_sec")
    ∷ ("device_initialization_attempts", "device_initialization_attempts")
    ∷ ("device_initialization_retry_delay_ms", "device_initialization_retry_delay_ms")
    ∷ ("device_read_failure_threshold", "device_read_failure_threshold")
    ∷ ("health_interval_sec", "health_interval_sec")
    ∷ ("devices", "devices")
    ∷ []

-- `{"key": config["source"], ...}`.
literal : List (String × String) → Fields → Check Fields
literal [] config = accepted end
literal ((key, source) ∷ rest) config = do
  value ← item source config
  others ← literal rest config
  accepted (field (str_value key) value others)

pub split_config : Fields → Check (Fields × Fields)
unfolding literal
split_config config = do
  core0 ← literal core0_items config
  core1 ← literal core1_items config
  accepted (core0, core1)

-- The keys that each core's loop is to get.
abbrev pub core0_keys : List String
core0_keys =
    "source" ∷ "mqtt_broker_ip_address" ∷ "mqtt_topic_telemetry" ∷ "mqtt_topic_log"
    ∷ "mqtt_topic_command" ∷ "mqtt_topic_command_response" ∷ "mqtt_topic_info_request"
    ∷ "mqtt_topic_info_response" ∷ "wifi_reconnect_delays_sec" ∷ "mqtt_reconnect_delays_sec"
    ∷ "mqtt_keepalive_sec" ∷ "mqtt_command_poll_ms" ∷ "mqtt_outbound_publish_delay_ms"
    ∷ "mqtt_broker_response_timeout_sec" ∷ "datetime_sync_interval_min"
    ∷ "network_snapshot_interval_sec" ∷ "network_probe_timeout_sec" ∷ "mqtt_topic_network_probe"
    ∷ "mqtt_topic_health" ∷ []

abbrev pub core1_keys : List String
core1_keys =
    "read_loop_sec" ∷ "device_initialization_attempts" ∷ "device_initialization_retry_delay_ms"
    ∷ "device_read_failure_threshold" ∷ "health_interval_sec" ∷ "devices" ∷ []

-- The dictionary holds what the configuration holds, for each of the keys.
abbrev Agree : Fields → List String → Fields → Type 0
Agree part ks config = All (λ k. lookup k part ≡ lookup k config) ks

abbrev distinct_keys : List String → Bool
distinct_keys [] = true
distinct_keys (k ∷ ks) = not (text_member k ks) && distinct_keys ks

abbrev all_within : List String → List String → Bool
all_within [] allowed = true
all_within (k ∷ ks) allowed = text_member k allowed && all_within ks allowed

pub present_lem :
    (k : String) (config : Fields)
    → has_key k config ≡ true
    → (v : Value) × (item k config ≡ accepted v) × (lookup k config ≡ some v)
unfolding has_key item
present_lem k config h = go (lookup k config) h
  where
    go :
        (o : Option Value)
        → present o ≡ true
        → (v : Value) × (or_foreign o ≡ accepted v) × (o ≡ some v)
    go none h = cc
    go (some v) h = (v, refl, refl)

pub present_of :
    (k : String) (ks : List String) (config : Fields)
    → text_member k ks ≡ true
    → all_present ks config ≡ true
    → has_key k config ≡ true
unfolding text_member all_present
present_of k [] config h g = cc
present_of k (j ∷ js) config h g = elim (Bool-cases (str_eq j k)) [
  | inl is_k ↦
      let same : j ≡ k = ground (arith, eq_iff j k) in
      let e : has_key j config ≡ true = ground arith in rw same at e
  | inr other ↦ present_of k js config (ground arith) (ground arith)
]

all_present_of :
    (ks js : List String) (config : Fields)
    → all_within ks js ≡ true
    → all_present js config ≡ true
    → all_present ks config ≡ true
unfolding all_present
all_present_of [] js config h g = refl
all_present_of (k ∷ ks) js config h g =
    let here = present_of k js config (ground arith) g in
    let rest = all_present_of ks js config (ground arith) g in ground arith

-- A key that is not among the others does not hide them.
unhidden :
    (k : String) (v : Value) (part config : Fields) (ks : List String)
    → text_member k ks ≡ false
    → Agree part ks config
    → Agree (field (str_value k) v part) ks config
unfolding text_member lookup
unhidden k v part config [] h agree = tt
unhidden k v part config (j ∷ js) h (same, agree) =
    let other : str_eq k j ≡ false = ground (arith, eq_iff k j, eq_iff j k) in
    (rw other same, unhidden k v part config js (ground arith) agree)

-- A dictionary that gives each key the value of the same key.
abbrev plain : List String → List (String × String)
plain [] = []
plain (k ∷ ks) = (k, k) ∷ plain ks

literal_lem :
    (ks : List String) (config : Fields)
    → all_present ks config ≡ true
    → distinct_keys ks ≡ true
    → (part : Fields) × (literal (plain ks) config ≡ accepted part) × Agree part ks config
unfolding literal all_present lookup
literal_lem [] config h d = (end, refl, tt)
literal_lem (k ∷ ks) config h d =
    let (v, e, held) = present_lem k config (ground arith) in
    let (part, made, agree) = literal_lem ks config (ground arith) (ground arith) in
    let mine : str_eq k k ≡ true = ground (arith, eq_iff k k) in
    (
      field (str_value k) v part,
      rw (e, made) refl,
      (rw mine (sym held), unhidden k v part config ks (ground arith) agree),
    )

pub all_present_lem :
    (config : Fields) → check_keys config ≡ accepted tt → all_present required_keys config ≡ true
unfolding check_keys
all_present_lem config h =
    let (unknown, e, h₁) = split (unknown_config_paths required_keys config) _ h in
    let (u, e₁, h₂) = split (refuse_unknown unknown) _ h₁ in ground arith

-- What neither core gets: the version, and the bound that main.py passes to the lanes.
abbrev kept_back : List String
kept_back = "config_schema_version" ∷ "outbound_queue_max_messages" ∷ []

abbrev all_handed : List String → Bool
all_handed [] = true
all_handed (k ∷ ks) =
    (text_member k kept_back || (text_member k core0_keys || text_member k core1_keys))
    && all_handed ks

-- The key is one of the two, or a part holds the value that the configuration holds.
abbrev pub Handed : Fields → Fields → Fields → String → Type 0
Handed config core0 core1 k =
    (text_member k kept_back ≡ true)
    ⊎ ((v : Value) × (lookup k config ≡ some v)
        × ((lookup k core0 ≡ some v) ⊎ (lookup k core1 ≡ some v)))

lookup-Agree :
    (k : String) (part config : Fields) (ks : List String)
    → text_member k ks ≡ true
    → Agree part ks config
    → lookup k part ≡ lookup k config
unfolding text_member
lookup-Agree k part config [] h a = cc
lookup-Agree k part config (j ∷ js) h (e, a) = elim (Bool-cases (str_eq j k)) [
  | inl is_k ↦ let same : j ≡ k = ground (arith, eq_iff j k) in rw (← same) e
  | inr other ↦ lookup-Agree k part config js (ground arith) a
]

handed_lem :
    (config core0 core1 : Fields) (ks : List String)
    → all_present ks config ≡ true
    → all_handed ks ≡ true
    → Agree core0 core0_keys config
    → Agree core1 core1_keys config
    → All (Handed config core0 core1) ks
unfolding all_present
handed_lem config core0 core1 [] h g a b = tt
handed_lem config core0 core1 (k ∷ ks) h g a b =
    (here, handed_lem config core0 core1 ks (ground arith) (ground arith) a b)
  where
    here : Handed config core0 core1 k
    here =
        let (v, e, held) = present_lem k config (ground arith) in
        elim (Bool-cases (text_member k kept_back)) [
          | inl back ↦ inl back
          | inr out ↦ elim (Bool-cases (text_member k core0_keys)) [
            | inl first ↦ inr (v, held, inl (lookup-Agree k core0 config core0_keys first a ∙ held))
            | inr other ↦
                inr (v, held, inr (lookup-Agree k core1 config core1_keys (ground arith) b ∙ held))
          ]
        ]

-- A configuration that is accepted is split without a missing key. Each core's part holds what the
-- configuration holds, for each of its keys; and every required key but the version and
-- outbound_queue_max_messages is, with its value, in one of the parts.
pub validate_config-split_config :
    (value : Value) {config : Fields}
    → validate_config value ≡ accepted config
    → (core0 core1 : Fields) × (split_config config ≡ accepted (core0, core1))
      × Agree core0 core0_keys config
      × Agree core1 core1_keys config
      × All (Handed config core0 core1) required_keys
unfolding split_config text_member
validate_config-split_config value {config} h =
    let p = validate_config-Passes value h in
    let all = all_present_lem config p.keys in
    let (core0, made0, agree0) =
      literal_lem core0_keys config (all_present_of core0_keys required_keys config refl all)
        refl in
    let (core1, made1, agree1) =
      literal_lem core1_keys config (all_present_of core1_keys required_keys config refl all)
        refl in
    (
      core0,
      core1,
      rw (made0, made1) refl,
      agree0,
      agree1,
      handed_lem config core0 core1 required_keys all refl agree0 agree1,
    )
