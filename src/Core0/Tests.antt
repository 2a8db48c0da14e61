-- ===== src/Core0/Tests.antt =====
-- A Core 0 that is up, with a broker that answers, and the messages of a command.
use pico_dualcore.Prelude.{
  ℕ, ◌+◌, ◌-◌, ◌%◌, ◌<◌, ◌≤◌, ◌⊎◌, true, false, some, none, [], ◌∷◌, ◌≡◌, refl, arith,
  if◌then◌else◌, ltb,
}
use pico_dualcore.Prelude.Int.{ℤ, pos, negsuc, sub_ℕ}
use pico_dualcore.Core0.Service.{watch_core_1_heartbeat}
use pico_dualcore.Value.{Fields, end, field, none_value, int_value, str_value, dict_value}
use pico_dualcore.Config.Check.{get, lookup}
use pico_dualcore.Uptime.{current_uptime_ms}
use pico_dualcore.CommandProtocol.{is_bounded_command, member, is_bounded_command_id}
use pico_dualcore.Message.{bytes}
use pico_dualcore.Message.Time.{format_utc_epoch_ms}
use pico_dualcore.Wifi.{reads}
use pico_dualcore.MqttClient.Socket.{Link}
use pico_dualcore.Intercore.Container.{empty_queue, empty_events, empty_mailboxes}
use pico_dualcore.Core0.World.{World, loaded, gives}
use pico_dualcore.Core0.State.{Core0, ok, raise, halted, unstamped}
use pico_dualcore.Core0.Basics.{
  is_recent_command_id, remember_command_id, uptime_ms, current_utc_timestamp, or_raise,
}
use pico_dualcore.Core0.Info.{synchronized}
use pico_dualcore.Core0.Command.{admit, on_command}
use pico_dualcore.Core0.Settled.{Settled}
use pico_dualcore.Core0.Boundary.{IsSilent, admit-Settled}
use pico_dualcore.Core0.Run.{run_pass}
use pico_dualcore.Core0.Sound.{IsSound}
use pico_dualcore.Core0.Sound.Debounce.{arrivals, debounced}
use pico_dualcore.Core0.Sound.Pass.{run_pass-IsSound}
use pico_dualcore.Core0.Acknowledged.{run_pass_stale}
use pico_dualcore.Core0.Clock.{synchronized-told}

-- The PUBACK of the packet 1.
abbrev socket : Link
socket = record {
  inbound = 64 ∷ 2 ∷ 0 ∷ 1 ∷ [];
  outbound = [];
  capacity = 900;
  mode_changes = 9;
  timed = false;
  closed = false;
  fed = false;
  unfed = false;
  largest = 0;
  pid = 0;
  delivered = [];
}

abbrev reboot_document : Fields
reboot_document = field (str_value "command_id") (str_value "c-1") (
    field (str_value "target") (str_value "pico-1")
      (field (str_value "command") (str_value "reboot") end))

abbrev world : World
world = record {
  config = record {
    source = "pico-1";
    mqtt_topic_command = "c";
    mqtt_topic_info_response = "i";
    mqtt_topic_command_response = "r";
    mqtt_topic_telemetry = "t";
    mqtt_topic_health = "h";
    mqtt_topic_log = "l";
    mqtt_topic_info_request = "q";
    mqtt_topic_network_probe = "p";
    mqtt_outbound_publish_delay_ms = 50;
    mqtt_command_poll_ms = 100;
    mqtt_broker_response_timeout_sec = 5;
    network_probe_timeout_sec = 5;
    network_snapshot_interval_sec = 60;
    datetime_sync_interval_min = 60;
    wifi_reconnect_delays_sec = 1 ∷ [];
    mqtt_reconnect_delays_sec = 1 ∷ [];
  };
  settings = record {
    client_id = 112 ∷ [];
    command_topic = 99 ∷ [];
    info_response_topic = 105 ∷ [];
    keepalive = 60;
    reconnect_delays = 1 ∷ [];
    message_callback = λ topic msg. false;
  };
  runtime_id = "run";
  ticks_ms = λ n. 40000 + n;
  ticks_diff = sub_ℕ;
  ticks_add = λ a d. a + d;
  ticks_back = λ a d. a - d;
  elapsed = λ a b. a - b;
  gmtime =
      λ z. some (record { year = 2026; month = 1; mday = 2; hour = 3; minute = 4; second = 5 });
  lower = λ s. s;
  encode = λ s. 114 ∷ [];
  decode = λ bs. some "c";
  json_loads = λ bs. loaded (dict_value reboot_document);
  json_dumps = λ v. bytes (123 ∷ 125 ∷ []);
  ip_address = λ n. str_value "10.0.0.2";
  free = λ n. 90000;
  read_persisted = λ n. gives (dict_value end);
  begin_write = λ n fs. gives (record { classification = "live"; changes = none_value });
  reboot_required = λ n. false;
  radio = record { isconnected = λ n. reads true; terminal = λ n. false; setup_fails = λ k. false };
  socket = λ n k. (true, socket);
  hook_calls = λ n. 3;
  readable = λ n. false;
  link_details = λ n up. [];
  has_wdt = true;
}

abbrev up : Core0
up = record {
  intercore = record {
    outbound_queue = empty_queue 4096 4096 (some 8);
    event_queue = empty_events 4096;
    state_mailboxes = record empty_mailboxes { core_1_activity_ms = int_value 39000 };
  };
  wifi = record {
    was_connected = true;
    connect_count = 1;
    disconnect_count = 0;
    reads_done = 1;
    statuses_done = 0;
    slices = 0;
  };
  mqtt = record {
    client = some socket;
    connected = true;
    connect_count = 1;
    disconnect_count = 0;
    last_connect_error = none;
    last_disconnect_reason = none;
    last_activity_ms = 0;
    slices = 0;
  };
  led = record {
    connecting = false;
    telemetry_ticks_remaining = 0;
    connecting_on = false;
    output = 0;
  };
  uptime_state = record { last_ticks_ms = 1000; accumulated_ms = 0 };
  pending_reboot = none;
  recent_command_ids = "c-0" ∷ [];
  pending_core0_responses = [];
  utc_request_counter = 0;
  pending_utc_request_id = none;
  utc_request_deadline_ms = none;
  utc_last_attempt_ms = none;
  utc_snapshot = none;
  last_network_snapshot_ms = none;
  last_mqtt_publish_completed_ms = none;
  last_command_poll_ms = 0;
  next_sequence = 7;
  network_stack_ready = true;
  wdt_armed = true;
  moment = 0;
  feeds = 0;
  resets = false;
  entry_sequences = [];
}

admit-Settled_example :
    Settled world "c-1" true
      (IsSilent false (get "command" reboot_document))
      (remember_command_id "c-1" up)
      (admit world "c-1" false reboot_document up)
unfolding is_recent_command_id member
admit-Settled_example = admit-Settled world "c-1" false reboot_document up refl refl

-- The command again, after another message.
abbrev repeated : Core0
repeated = arrivals world ((99 ∷ [], 123 ∷ []) ∷ []) (admit world "c-1" false reboot_document up).1

debounced_example : on_command world reboot_document repeated ≡ (ok tt, repeated)
unfolding is_recent_command_id get member lookup
debounced_example =
    debounced world "c-1" false reboot_document reboot_document ((99 ∷ [], 123 ∷ []) ∷ []) up refl
      refl (omega arith) refl

-- An entry has the sequence 5 and a response the sequence 6.
abbrev in_use : Core0
in_use = record up {
  entry_sequences = (0, 5) ∷ [];
  pending_core0_responses =
      record {
        command_id = "c-0";
        command = some "info";
        success = true;
        targeted = true;
        result = none_value;
        clears_pending_reboot = false;
        stamps = record unstamped { wire_sequence = some 6 };
      }
      ∷ [];
}

in_use-IsSound : IsSound in_use
unfolding member is_bounded_command_id is_bounded_command
in_use-IsSound =
    (omega arith, (refl, tt), (refl, tt), omega arith, ((refl, refl), tt), tt, λ n. ground arith)

run_pass-IsSound_example : IsSound (run_pass world 4 in_use).1
run_pass-IsSound_example = run_pass-IsSound world 4 in_use in_use-IsSound

abbrev signed : ℕ → ℤ
signed d = if ltb d 536870912 then pos d else negsuc (1073741823 - d)

-- The last stamp of Core 1 is 39 s old.
abbrev stalled : Core0
stalled = record up {
  intercore = record up.intercore {
    state_mailboxes = record up.intercore.state_mailboxes { core_1_activity_ms = int_value 1000 };
  };
}

-- The tick counter of the board, of period 2 ^ 30.
abbrev wrapping : World
wrapping = record world { ticks_diff = λ a b. signed ((a + 1073741824 - b) % 1073741824) }

differences :
    (t d : ℕ)
    → d < 536870912
    → signed (((t + d) % 1073741824 + 1073741824 - t % 1073741824) % 1073741824) ≡ pos d
differences t d near = ground arith

run_pass_stale_example :
    ((39000 < 30000)
      × (watch_core_1_heartbeat wrapping stalled ≡ (ok tt, record stalled { moment = 1 })))
    ⊎ ((30000 ≤ 39000)
        × (run_pass wrapping 4 stalled
            ≡ (raise halted, record stalled { moment = 1; resets = true })))
run_pass_stale_example =
    run_pass_stale wrapping 1073741824 536870912 differences 4 1000 39000 stalled refl refl
      (omega arith)

abbrev asked : Core0
asked = record up {
  pending_reboot =
      some
        (record { command_id = "c-1"; targeted = true; answer_queued = false; stamps = unstamped });
}

-- 250 ms after a synchronization to the epoch 1000 ms, which is less than the uptime.
abbrev synced : Core0
synced = synchronized world 1000 (some "2026") up

abbrev later : Core0
later = record synced { moment = 250 }

synchronized-told_example :
    current_utc_timestamp world later
    ≡ or_raise (format_utc_epoch_ms world.gmtime (pos 1250)) (uptime_ms world later).1
unfolding uptime_ms current_uptime_ms synchronized
synchronized-told_example = synchronized-told world 1000 250 "2026" up later refl refl
