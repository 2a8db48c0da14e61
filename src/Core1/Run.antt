-- ===== src/Core1/Run.antt =====
-- core1.py: one round of the loop of core1_main. The devices come to what the board gives for
-- the moment of the operation; the fuel is for the loops that skip boundaries.
pub mod Start
pub mod Commands
mod Tests
use pico_dualcore.Prelude.{
  ℕ, zero, suc, ◌+◌, ◌*◌, max, Bool, true, false, ◌&&◌, String, Option, none, some, List, [], ◌∷◌,
  if◌then◌else◌,
}
use pico_dualcore.Prelude.Int.{ℤ, at_least}
use pico_dualcore.Value.{Value, int_value}
use pico_dualcore.Uptime.{create_uptime_state}
use pico_dualcore.Device.{ManagedDevice, Init, DeviceResult, escaped}
use pico_dualcore.Device.Life.{Cycle, process_device}
use pico_dualcore.Device.Fleet.{
  Definition, DeviceManager, Created, Retried, initialize_devices, has_failed_devices,
  retry_failed_devices, get_device_counts,
}
use pico_dualcore.Intercore.Container.{set_core_1_activity_ms, set_hardware}
use pico_dualcore.Core1.State.{
  World, Core1, Exn, escape, Result, ok, raise, Act, pure, throw, go_on, ◌>>=◌, uptime_ms,
}
use pico_dualcore.Core1.Schedule.{regrid_next_boundary, skip_boundaries}
use pico_dualcore.Core1.Response.{
  Response, process_intercore_event, admit_or_substitute_command_response,
}
use pico_dualcore.Core1.Startup.{startup_gate, handle_device_result}
use pico_dualcore.Core1.StartupLog.{build_startup_log, build_startup_log_bounded}
use pico_dualcore.Core1.Health.Report.{Sources, ticks, counting, try_queue_health_message_intercore}

-- The configuration, the drivers at a moment, and the rest that is read.
pub record Board : Type 0 where
  pub world : World
  pub sources : Sources
  pub ticks_add : ℕ → ℕ → ℕ
  pub boot_ticks_ms : ℕ
  pub reset_cause : String
  -- get_machine(), where it raises nothing.
  pub machine : Option Value
  -- How the sections of the system information are collected.
  pub details : ℕ → Result Value
  pub devices : List Definition
  pub health_interval_sec : ℕ
  pub device_initialization_attempts : ℕ
  pub device_initialization_retry_delay_ms : ℕ
  pub read_failure_threshold : ℕ
  pub create : ℕ → Definition → Created
  pub attempt : ℕ → Definition → ℕ → Init
  pub cycle : ℕ → ManagedDevice → Cycle

-- The variables of core1_main.
pub record Loop : Type 0 where
  pub core : Core1
  pub manager : DeviceManager
  pub pending_command_response : Option Response
  pub next_read_ms : ℕ
  pub next_health_ms : ℕ
  pub next_failed_reinit_ms : ℕ
  pub next_activity_ms : ℕ

-- A step ends, raises, or is out of fuel.
pub data Ended (A : Type 0) : Type 0 where
  ends : A → Ended A
  stops : Exn → Ended A
  out_of_fuel : Ended A

abbrev pub Step : Type 0
Step = Loop → Ended (Unit {0}) × Loop

abbrev pub and_then : Step → Ended (Unit {0}) × Loop → Ended (Unit {0}) × Loop
and_then k (ends u, l) = k l
and_then k (stops e, l) = (stops e, l)
and_then k (out_of_fuel, l) = (out_of_fuel, l)

infixr 40 ◌>>◌
abbrev pub ◌>>◌ : Step → Step → Step
m >> k = λ l. and_then k (m l)

-- A step on the core alone.
abbrev pub on_core : Act (Unit {0}) → Step
on_core m l = go (m l.core)
  where
    go : Result (Unit {0}) × Core1 → Ended (Unit {0}) × Loop
    go (ok u, c) = (ends tt, record l { core = c })
    go (raise e, c) = (stops e, record l { core = c })

abbrev pub activity_interval_ms : ℕ
activity_interval_ms = 5000

module _ (b : Board) where
  abbrev pub read_loop_ms : ℕ
  read_loop_ms = b.sources.read_loop_sec * 1000

  abbrev pub health_interval_ms : ℕ
  health_interval_ms = b.health_interval_sec * 1000

  abbrev pub failed_reinit_interval_ms : ℕ
  failed_reinit_interval_ms = max b.device_initialization_retry_delay_ms 1000

  abbrev pub stamped : ℕ → Core1 → Core1
  stamped now c = record c {
    intercore = record c.intercore {
      state_mailboxes = (set_core_1_activity_ms (int_value now) c.intercore.state_mailboxes).1;
    };
  }

  -- The liveness stamp; of several in a row the last.
  abbrev pub refresh_activity : Core1 → Core1
  refresh_activity c = stamped (b.world.ticks_ms c.moment) (record c { moment = suc c.moment })

  abbrev pub refresh_if : Bool → Core1 → Core1
  refresh_if true c = refresh_activity c
  refresh_if false c = c

  -- An exception of the driver leaves the manager and the pass.
  abbrev pub handled : ManagedDevice → DeviceResult → Act (Unit {0})
  handled d escaped = throw escape
  handled d r = handle_device_result b.world d r

  -- The devices that are active, one after the other, with their results queued.
  unfoldable pub read_devices :
      List ManagedDevice → Core1 → Result (Unit {0}) × List ManagedDevice × Core1
  unfolding handle_device_result
  read_devices [] c = (ok tt, [], c)
  read_devices (d ∷ ds) c =
      let (r, d') =
        process_device b.read_failure_threshold b.device_initialization_attempts
          (b.cycle c.moment d) d in
      let c₁ = refresh_if d.reinitialize_pending (refresh_activity c) in
      let (o, c₂) = handled d' r c₁ in rest d' o c₂ (read_devices ds c₂)
    where
      rest :
          ManagedDevice
          → Result (Unit {0})
          → Core1
          → Result (Unit {0}) × List ManagedDevice × Core1
          → Result (Unit {0}) × List ManagedDevice × Core1
      rest d' (raise e) c later = (raise e, d' ∷ ds, c)
      rest d' (ok u) c (o, ds', c') = (o, d' ∷ ds', c')

  unfoldable pub run_telemetry_read_pass : Step
  unfolding read_devices
  run_telemetry_read_pass l =
      let (o, ds, c) = read_devices l.manager.active l.core in
      (ended o, record l { core = c; manager = record l.manager { active = ds } })
    where
      ended : Result (Unit {0}) → Ended (Unit {0})
      ended (ok u) = ends tt
      ended (raise e) = stops e

  abbrev pub report_of : DeviceManager → Act (Unit {0})
  report_of m = do
    let (configured, active, failed) = get_device_counts b.devices m
    queued ← try_queue_health_message_intercore b.world b.sources (configured, active)
    pure tt

  -- A report, if the network is up.
  unfoldable pub report_health : Step
  unfolding try_queue_health_message_intercore
  report_health l = on_core (report_of l.manager) l

  abbrev pub collect_details : Act Value
  collect_details c = (b.details c.moment, record c { moment = suc c.moment })

  abbrev pub keep_pending : Loop → Result (Option Response) × Core1 → Ended (Unit {0}) × Loop
  keep_pending l (ok pending, c) =
      (ends tt, record l { core = c; pending_command_response = pending })
  keep_pending l (raise e, c) = (stops e, record l { core = c })

  abbrev pub admit_if : Option Response → Act (Option Response)
  admit_if none = pure none
  admit_if (some r) = admit_or_substitute_command_response b.world r

  -- The response that waits, or else that of the next event.
  abbrev pub pending_or_next : Option Response → Act (Option Response)
  pending_or_next (some r) = admit_or_substitute_command_response b.world r
  pending_or_next none = do
    response ← process_intercore_event b.world (some collect_details)
    admit_if response

  unfoldable pub serve_command : Step
  unfolding process_intercore_event admit_or_substitute_command_response
  serve_command l = keep_pending l (pending_or_next l.pending_command_response l.core)

  abbrev pub skipped : ℕ → ℕ → ℕ → ℕ → Option ℕ
  skipped fuel = skip_boundaries b.sources.ticks_diff b.ticks_add fuel

  abbrev pub is_due : ℕ → ℕ → Bool
  is_due now boundary = at_least 0 (b.sources.ticks_diff now boundary)

  abbrev pub now_of : (ℕ → Step) → Step
  now_of k l =
      k (b.world.ticks_ms l.core.moment)
        (record l { core = record l.core { moment = suc l.core.moment } })

  abbrev pub moved_to : (ℕ → Loop) → Option ℕ → Loop → Ended (Unit {0}) × Loop
  moved_to set none l = (out_of_fuel, l)
  moved_to set (some next) l = (ends tt, set next)

  abbrev pub advance_read : ℕ → ℕ → Step
  advance_read fuel now l =
      moved_to (λ next. record l { next_read_ms = next })
        (skipped fuel now read_loop_ms l.next_read_ms) l

  -- The clock is read again for the boundaries that the pass itself has used up.
  abbrev pub read_and_advance : ℕ → Step
  read_and_advance fuel = run_telemetry_read_pass >> now_of (advance_read fuel)

  unfoldable pub read_if_due : ℕ → ℕ → Step
  unfolding run_telemetry_read_pass skip_boundaries
  read_if_due fuel now l =
      if is_due now l.next_read_ms then read_and_advance fuel l else (ends tt, l)

  abbrev pub retried : Loop → Option (List Retried × DeviceManager) → Ended (Unit {0}) × Loop
  retried l none = (stops escape, l)
  retried l (some (results, m)) =
      (ends tt, record l { core = refresh_activity l.core; manager = m })

  -- The results of a retry are only told on the console.
  abbrev pub retry_devices : Step
  retry_devices l = retried l (
      retry_failed_devices (b.create l.core.moment) (λ d. b.attempt l.core.moment d 1) b.devices
        l.manager)

  abbrev pub advance_retry : ℕ → ℕ → Step
  advance_retry fuel now l =
      moved_to (λ next. record l { next_failed_reinit_ms = next })
        (skipped fuel now failed_reinit_interval_ms l.next_failed_reinit_ms) l

  abbrev pub retry_and_advance : ℕ → Step
  retry_and_advance fuel = retry_devices >> now_of (advance_retry fuel)

  unfoldable pub retry_if_due : ℕ → ℕ → Step
  unfolding skip_boundaries
  retry_if_due fuel now l =
      if has_failed_devices l.manager && is_due now l.next_failed_reinit_ms
      then retry_and_advance fuel l
      else (ends tt, l)

  unfoldable pub stamp_if_due : ℕ → Step
  stamp_if_due now l =
      if is_due now l.next_activity_ms
      then (
        ends tt,
        record l {
          core = stamped now l.core;
          next_activity_ms = b.ticks_add now activity_interval_ms;
        },
      )
      else (ends tt, l)

  abbrev pub advance_health : ℕ → ℕ → Step
  advance_health fuel now l =
      moved_to (λ next. record l { next_health_ms = next })
        (skipped fuel now health_interval_ms l.next_health_ms) l

  abbrev pub report_and_advance : ℕ → ℕ → Step
  report_and_advance fuel now = report_health >> advance_health fuel now

  unfoldable pub report_if_due : ℕ → ℕ → Step
  unfolding report_health skip_boundaries
  report_if_due fuel now l =
      if is_due now l.next_health_ms then report_and_advance fuel now l else (ends tt, l)

  abbrev pub after_retry : ℕ → ℕ → Step
  after_retry fuel now = now_of stamp_if_due >> report_if_due fuel now

  abbrev pub after_read : ℕ → ℕ → Step
  after_read fuel now = retry_if_due fuel now >> after_retry fuel now

  -- The periodic work, from one reading of the clock.
  abbrev pub from_reading : ℕ → ℕ → Step
  from_reading fuel now = read_if_due fuel now >> after_read fuel now

  -- One round of the loop.
  unfoldable pub run_round : ℕ → Step
  unfolding serve_command read_if_due retry_if_due stamp_if_due report_if_due
  run_round fuel = serve_command >> now_of (from_reading fuel)

  -- The rounds, as long as they end.
  abbrev pub run_rounds : ℕ → ℕ → Step
  run_rounds fuel zero l = (ends tt, l)
  run_rounds fuel (suc n) l = and_then (run_rounds fuel n) (run_round fuel l)
