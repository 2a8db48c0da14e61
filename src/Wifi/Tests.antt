-- ===== src/Wifi/Tests.antt =====
-- A radio that connects at its fourth read, in the second attempt.
use pico_dualcore.Prelude.{◌+◌, ◌≤◌, true, false, [], ◌∷◌, ◌≡◌, refl, leb, ◌==◌}
use pico_dualcore.Wifi.{Radio, reads, Wifi, connect, snapshot}
use pico_dualcore.Wifi.Sound.{Balanced, longest, connect-Balanced}

abbrev radio : Radio
radio = record {
  isconnected = λ n. reads (leb 3 n);
  terminal = λ n. false;
  setup_fails = λ k. k == 0;
}

abbrev fresh : Wifi
fresh = record {
  was_connected = false;
  connect_count = 0;
  disconnect_count = 0;
  reads_done = 0;
  statuses_done = 0;
  slices = 0;
}

connect_run : connect radio (1 ∷ 2 ∷ []) fresh ≡ (
  true,
  record {
    was_connected = true;
    connect_count = 1;
    disconnect_count = 0;
    reads_done = 5;
    statuses_done = 3;
    slices = 13;
  },
)
unfolding connect
connect_run = refl

connect-Balanced_example :
    let (up, t) = connect radio (1 ∷ 2 ∷ []) fresh in
    Balanced t × (t.slices ≤ 0 + longest (1 ∷ 2 ∷ [])) × Balanced (snapshot radio fresh).1
connect-Balanced_example = connect-Balanced radio (1 ∷ 2 ∷ []) fresh refl
