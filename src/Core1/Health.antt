-- ===== src/Core1/Health.antt =====
-- core1.py: the health report.
pub mod Report
use pico_dualcore.Prelude.{
  ℕ, ◌*◌, ◌/◌, max, min, Bool, true, false, String, Option, none, some, List, [], ◌∷◌, ◌++◌, ◌≡◌,
  arith, if◌then◌else◌, leb, ltb, ◌==◌,
}
use pico_dualcore.Prelude.Int.{ℤ, pos, negsuc}

abbrev pub max_ticks_safe_interval_ms : ℕ
max_ticks_safe_interval_ms = 536870911

-- How old the stamp of Core 1 may be before the report calls the core inactive.
unfoldable pub core_1_activity_threshold_ms : ℕ → ℕ
core_1_activity_threshold_ms read_loop_sec =
    let read_loop_ms = read_loop_sec * 1000 in
    if ltb (max_ticks_safe_interval_ms / 3) read_loop_ms
    then max_ticks_safe_interval_ms
    else max (read_loop_ms * 3) 60000

-- Three reads, but 60 s at least, and never more than the tick counter can tell.
pub core_1_activity_threshold_ms_lem :
    (read_loop_sec : ℕ)
    → core_1_activity_threshold_ms read_loop_sec
      ≡ min (max (read_loop_sec * 1000 * 3) 60000) max_ticks_safe_interval_ms
unfolding core_1_activity_threshold_ms
core_1_activity_threshold_ms_lem n = ground arith

-- What the report judges.
pub record Facts : Type 0 where
  pub network_stack_ready : Bool
  pub wifi_connected : Bool
  pub mqtt_connected : Bool
  pub core_1_activity_age_ms : Option ℤ
  pub free_heap : ℕ
  pub minimum_free_heap : ℕ
  pub devices_configured : ℕ
  pub devices_active : ℕ
  pub utc_valid : Bool

-- An age is negative where the stamp is later than the reading.
abbrev pub within : ℕ → Option ℤ → Bool
within threshold none = false
within threshold (some (pos age)) = leb age threshold
within threshold (some (negsuc n)) = true

abbrev pub reason : Bool → String → List String
reason true text = []
reason false text = text ∷ []

unfoldable pub degraded_reasons : ℕ → Facts → List String
unfolding core_1_activity_threshold_ms
degraded_reasons read_loop_sec f =
    reason f.network_stack_ready "network_stack_not_ready"
    ++ (reason f.wifi_connected "wifi_not_connected"
        ++ (reason f.mqtt_connected "mqtt_not_connected"
            ++ (reason
                  (within (core_1_activity_threshold_ms read_loop_sec) f.core_1_activity_age_ms)
                  "core_1_inactive"
                ++ (reason (leb f.minimum_free_heap f.free_heap) "low_free_heap"
                    ++ (reason (f.devices_active == f.devices_configured) "device_count_mismatch"
                        ++ reason f.utc_valid "utc_not_valid")))))

abbrev pub is_none_left : List String → Bool
is_none_left [] = true
is_none_left (s ∷ ss) = false

unfoldable pub health_status : List String → String
health_status reasons = if is_none_left reasons then "healthy" else "degraded"
