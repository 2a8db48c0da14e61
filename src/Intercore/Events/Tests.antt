-- ===== src/Intercore/Events/Tests.antt =====
-- The event lane at a heap that the append takes under the floor.
use pico_dualcore.Prelude.{ℕ, [], if◌then◌else◌, ltb}
use pico_dualcore.Intercore.Events.{EventQueue}

abbrev empty : EventQueue
empty = record {
  minimum_free_heap_bytes = 100;
  queue = [];
  high_watermark = 0;
  rejected = 0;
  measured = 0;
}

abbrev sinking : ℕ → ℕ
sinking n = if ltb n 2 then 100 else 90
