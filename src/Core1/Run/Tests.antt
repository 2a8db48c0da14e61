-- ===== src/Core1/Run/Tests.antt =====
-- A board without devices, on a counter of period 2 ^ 30, with a command in the lane.
use pico_dualcore.Prelude.{ℕ, ◌+◌, ◌-◌, ◌%◌, true, some, none, [], ◌∷◌, if◌then◌else◌, ltb}
use pico_dualcore.Prelude.Int.{ℤ, pos, negsuc}
use pico_dualcore.Value.{Value, end, field, none_value, str_value, bool_value, dict_value}
use pico_dualcore.Message.{bytes}
use pico_dualcore.Device.{initialized, read_os_error}
use pico_dualcore.Device.Fleet.{created}
use pico_dualcore.Intercore.Container.{empty_queue, empty_events, empty_mailboxes}
use pico_dualcore.Core1.State.{Core1, ok}
use pico_dualcore.Core1.Run.{Board, Loop, serve_command}
use pico_dualcore.Core1.Run.Commands.{After, serve_command-After}

abbrev period : ℕ
period = 1073741824

abbrev time : ℕ → ℕ
time n = 1073741000 + n

abbrev signed : ℕ → ℤ
signed d = if ltb d 536870912 then pos d else negsuc (1073741823 - d)

abbrev board : Board
board = record {
  world = record {
    ticks_ms = λ n. time n % period;
    elapsed = λ a b. a - b;
    gmtime = λ z. none;
    free = λ n. 90000;
    json_dumps = λ n v. bytes (123 ∷ 125 ∷ []);
  };
  sources = record {
    ticks_diff = λ a b. signed ((a + period - b) % period);
    heap = λ n. some 90000;
    cpu_temperature = λ n. none_value;
    read_loop_sec = 10;
  };
  ticks_add = λ t d. (t + d) % period;
  boot_ticks_ms = 0;
  reset_cause = "poweron";
  machine = none;
  details = λ n. ok (dict_value end);
  devices = [];
  health_interval_sec = 60;
  device_initialization_attempts = 3;
  device_initialization_retry_delay_ms = 500;
  read_failure_threshold = 3;
  create = λ n d. created;
  attempt = λ n d k. initialized;
  cycle = λ n d. record {
    now = n;
    later = n;
    reading = read_os_error "EIO";
    attempts = λ k. initialized;
  };
}

abbrev event : Value
event = dict_value (
    field (str_value "command_id") (str_value "c-1") (
      field (str_value "command") (str_value "get-details")
        (field (str_value "targeted") (bool_value true) end)))

abbrev core_1 : Core1
core_1 = record {
  intercore = record {
    outbound_queue = empty_queue 4096 4096 (some 8);
    event_queue = record (empty_events 4096) { queue = event ∷ [] };
    state_mailboxes = empty_mailboxes;
  };
  uptime_state = record { last_ticks_ms = 0; accumulated_ms = 0 };
  moment = 0;
}

abbrev idle : Loop
idle = record {
  core = core_1;
  manager = record { active = []; failed = [] };
  pending_command_response = none;
  next_read_ms = 0;
  next_health_ms = 0;
  next_failed_reinit_ms = 0;
  next_activity_ms = 0;
}

serve_command-After_example : After idle (serve_command board idle)
serve_command-After_example = serve_command-After board idle
