-- ===== src/Core1/Response/Laws/Tests.antt =====
-- A response whose message no json.dumps can write.
use pico_dualcore.Prelude.{◌-◌, ◌+◌, true, some, none}
use pico_dualcore.Value.{end, none_value, str_value, bool_value, dict_value, field}
use pico_dualcore.Uptime.{create_uptime_state}
use pico_dualcore.Message.{out_of_memory}
use pico_dualcore.Intercore.Container.{empty_queue, empty_events, empty_mailboxes}
use pico_dualcore.Core1.State.{World, Core1}
use pico_dualcore.Core1.Response.{Response, admit_or_substitute_command_response}
use pico_dualcore.Core1.Response.Laws.{Answers, admit_or_substitute-Answers}

abbrev world : World
world = record {
  ticks_ms = λ n. 40000 + n;
  elapsed = λ a b. a - b;
  gmtime = λ z. none;
  free = λ n. 90000;
  json_dumps = λ n v. out_of_memory;
}

abbrev core_1 : Core1
core_1 = record {
  intercore = record {
    outbound_queue = empty_queue 4096 4096 (some 8);
    event_queue = empty_events 4096;
    state_mailboxes = empty_mailboxes;
  };
  uptime_state = create_uptime_state 1000;
  moment = 0;
}

abbrev details : Response
details = record {
  command_id = str_value "c-1";
  command = str_value "get-details";
  targeted = bool_value true;
  success = true;
  result = dict_value (field (str_value "devices") none_value end);
  uptime_ms = 39000;
  timestamp = none_value;
}

admit_or_substitute-Answers_example :
    Answers core_1.intercore.event_queue details
      (admit_or_substitute_command_response world details core_1)
admit_or_substitute-Answers_example = admit_or_substitute-Answers world details core_1
