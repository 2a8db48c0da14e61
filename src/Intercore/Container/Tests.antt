-- ===== src/Intercore/Container/Tests.antt =====
-- A container with a floor, no preferred reserve and a ceiling.
use pico_dualcore.Value.{none_value, int_value}
use pico_dualcore.Prelude.{some, ◌≡◌, refl}
use pico_dualcore.Intercore.Container.{
  InterCore, empty_queue, empty_events, empty_mailboxes, new_inter_core, new_outbound_queue,
  thresholds, require_ceiling, require_positive_integer, positive,
}

abbrev built : InterCore
built = record {
  outbound_queue = empty_queue 4096 4096 (some 8);
  event_queue = empty_events 4096;
  state_mailboxes = empty_mailboxes;
}

made : new_inter_core (int_value 4096) none_value (int_value 8) ≡ some built
unfolding new_inter_core new_outbound_queue thresholds require_ceiling require_positive_integer
    positive
made = refl
