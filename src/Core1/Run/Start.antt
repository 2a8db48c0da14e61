-- ===== src/Core1/Run/Start.antt =====
-- core1.py: core1_main up to its loop.
use pico_dualcore.Prelude.{ℕ, Bool, true, false, Option, none, some, List, [], ◌∷◌}
use pico_dualcore.Value.{Value}
use pico_dualcore.Uptime.{create_uptime_state}
use pico_dualcore.Device.Fleet.{Definition, DeviceManager, initialize_devices}
use pico_dualcore.Intercore.Container.{set_hardware}
use pico_dualcore.Core1.State.{Core1, escape, Result, ok, raise, Act, ◌>>=◌, uptime_ms}
use pico_dualcore.Core1.Schedule.{regrid_next_boundary}
use pico_dualcore.Core1.Startup.{startup_gate}
use pico_dualcore.Core1.StartupLog.{build_startup_log, build_startup_log_bounded}
use pico_dualcore.Core1.Health.Report.{ticks, counting}
use pico_dualcore.Core1.Run.{
  Board, Loop, Ended, stops, ◌>>◌, activity_interval_ms, read_loop_ms, health_interval_ms,
  failed_reinit_interval_ms, refresh_activity, refresh_if, run_telemetry_read_pass, report_health,
}

module _ (b : Board) where
  abbrev pub with_devices : Core1 → Option (ℕ × DeviceManager) → Result DeviceManager × Core1
  with_devices c none = (raise escape, c)
  with_devices c (some (initialized, m)) = (ok m, refresh_if b (has_devices b.devices) c)
    where
      has_devices : List Definition → Bool
      has_devices [] = false
      has_devices (d ∷ ds) = true

  -- The devices with their attempts at boot.
  abbrev pub boot_devices : Act DeviceManager
  boot_devices c = with_devices c (
      initialize_devices b.device_initialization_attempts (b.create c.moment) (b.attempt c.moment)
        b.devices (record { active = []; failed = [] }))

  abbrev pub stored : Option Value → Core1 → Core1
  stored none c = c
  stored (some machine) c = record c {
    intercore = record c.intercore {
      state_mailboxes = (set_hardware machine c.intercore.state_mailboxes).1;
    };
  }

  -- The schedule, from the anchor and a second reading of the clock.
  abbrev pub scheduled : DeviceManager → ℕ → ℕ → Core1 → Loop
  scheduled m anchor now c =
      let regrid = regrid_next_boundary b.sources.ticks_diff b.ticks_add anchor now in
      record {
        core = c;
        manager = m;
        pending_command_response = none;
        next_read_ms = regrid (read_loop_ms b);
        next_health_ms = regrid (health_interval_ms b);
        next_failed_reinit_ms = regrid (failed_reinit_interval_ms b);
        next_activity_ms = b.ticks_add now activity_interval_ms;
      }

  abbrev pub unless_refused : Bool × Core1 → Result (Unit {0}) × Core1
  unless_refused (true, c) = (ok tt, c)
  unless_refused (false, c) = (raise escape, c)

  -- The startup log, past which nothing goes that is not admitted.
  unfoldable pub admit_log : DeviceManager → Act (Unit {0})
  unfolding build_startup_log build_startup_log_bounded startup_gate
  admit_log m = do
    u ← counting b.world b.sources (uptime_ms b.world)
    message ← build_startup_log b.world b.devices m u b.reset_cause
    λ c. unless_refused (
        startup_gate b.world message (build_startup_log_bounded b.world b.devices m u b.reset_cause)
          c)

  -- The anchor, the hardware mailbox, the stamp and the schedule.
  unfoldable pub open_schedule : DeviceManager → Act Loop
  unfolding ticks regrid_next_boundary
  open_schedule m = do
    anchor ← ticks b.world b.sources
    done ← (λ c. (ok tt, refresh_activity b (stored b.machine c)))
    now ← ticks b.world b.sources
    λ c. (ok (scheduled m anchor now c), c)

  abbrev pub with_log : DeviceManager → Act Loop
  with_log m = do admitted ← admit_log m; open_schedule m

  -- The first stamp, and the uptime.
  abbrev pub booted : Core1 → Core1
  booted c = record (refresh_activity b c) { uptime_state = create_uptime_state b.boot_ticks_ms }

  -- From the first stamp to the schedule, with the lanes as Core 0 has made them.
  unfoldable pub prepare : Act Loop
  unfolding admit_log open_schedule
  prepare c = (boot_devices >>= with_log) (booted c)

  abbrev pub first_pass : Result Loop × Core1 → Option Loop → Ended (Unit {0}) × Option Loop
  first_pass (raise e, c) before = (stops e, before)
  first_pass (ok l, c) before =
      let (o, l') = (run_telemetry_read_pass b >> report_health b) l in (o, some l')

  -- core1_main up to its loop: the state of the loop, if it came to be.
  unfoldable pub start : Core1 → Ended (Unit {0}) × Option Loop
  unfolding prepare run_telemetry_read_pass report_health
  start c = first_pass (prepare c) none
