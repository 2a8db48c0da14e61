-- ===== src/Core0/World.antt =====
-- core0.py: what Core 0 takes from outside. Whatever it reads of the world (the tick counter, the
-- radio's address, the memory, the configuration on flash) is a parameter that answers by the number of
-- the reading, `moment`.
use pico_dualcore.Prelude.{ℕ, Bool, String, Option, List}
use pico_dualcore.Prelude.Int.{ℤ}
use pico_dualcore.Value.{Value, Fields}
use pico_dualcore.Message.{Dumped}
use pico_dualcore.Message.Time.{CivilTime}
use pico_dualcore.Wifi.{Radio}
use pico_dualcore.Mqtt.{Settings}
use pico_dualcore.MqttClient.Socket.{Bytes, Link}

-- What Core 0 uses of the configuration.
pub record Config : Type 0 where
  pub source : String
  pub mqtt_topic_command : String
  pub mqtt_topic_info_response : String
  pub mqtt_topic_command_response : String
  pub mqtt_topic_telemetry : String
  pub mqtt_topic_health : String
  pub mqtt_topic_log : String
  pub mqtt_topic_info_request : String
  pub mqtt_topic_network_probe : String
  pub mqtt_outbound_publish_delay_ms : ℕ
  pub mqtt_command_poll_ms : ℕ
  pub mqtt_broker_response_timeout_sec : ℕ
  pub network_probe_timeout_sec : ℕ
  pub network_snapshot_interval_sec : ℕ
  pub datetime_sync_interval_min : ℕ
  pub wifi_reconnect_delays_sec : List ℕ
  pub mqtt_reconnect_delays_sec : List ℕ

-- json.loads: a value, another exception, or a MemoryError.
pub data Loaded : Type 0 where
  loaded : Value → Loaded
  malformed : Loaded
  exhausted : Loaded

-- A ConfigError, as a response shows it.
pub record ConfigError : Type 0 where
  pub code : Option String
  pub text : String
  pub unknown_fields : List String
  pub details : Fields

-- What an operation of the configuration manager comes to; `escapes` is any other exception.
pub data Managed (A : Type 0) : Type 0 where
  gives : A → Managed A
  config_error : ConfigError → Managed A
  escapes : Managed A

pub record WriteResult : Type 0 where
  pub classification : String
  pub changes : Value

-- The world that Core 0 runs in. `elapsed` is ticks_diff of two samples of which the first is the later,
-- `back` is ticks_add with a negative amount.
pub record World : Type 0 where
  pub config : Config
  pub settings : Settings
  pub runtime_id : String
  pub ticks_ms : ℕ → ℕ
  pub ticks_diff : ℕ → ℕ → ℤ
  pub ticks_add : ℕ → ℕ → ℕ
  pub ticks_back : ℕ → ℕ → ℕ
  pub elapsed : ℕ → ℕ → ℕ
  pub gmtime : ℤ → Option CivilTime
  pub lower : String → String
  pub encode : String → Bytes
  pub decode : Bytes → Option String
  pub json_loads : Bytes → Loaded
  pub json_dumps : Value → Dumped
  pub ip_address : ℕ → Value
  pub free : ℕ → ℕ
  pub read_persisted : ℕ → Managed Value
  pub begin_write : ℕ → Fields → Managed WriteResult
  pub reboot_required : ℕ → Bool
  pub radio : Radio
  pub socket : ℕ → ℕ → Bool × Link
  -- How often the session calls its service hook in the operation that begins at the n-th moment.
  pub hook_calls : ℕ → ℕ
  -- What poll() says before a check for messages.
  pub readable : ℕ → Bool
  -- The ssid, the addresses and the signal strength, of a radio that is connected or not.
  pub link_details : ℕ → Bool → List (String × Value)
  pub has_wdt : Bool
