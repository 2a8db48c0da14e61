-- ===== src/Wifi.antt =====
-- wifi.py: the attempts to connect, with their bounded windows, and the counts. What the radio answers
-- is an argument, by the number of the read; a failure other than OSError is left out.
pub mod Sound
mod Tests
use pico_dualcore.Prelude.{
  ℕ, zero, suc, ◌+◌, ◌*◌, Bool, true, false, not, ◌&&◌, List, [], ◌∷◌, if◌then◌else◌,
}

-- A read of isconnected(): its value, or an OSError.
pub data Answer : Type 0 where
  reads : Bool → Answer
  os_error : Answer

pub record Radio : Type 0 where
  -- The n-th read of isconnected().
  pub isconnected : ℕ → Answer
  -- Whether the n-th status that a window reads is one of the terminal ones.
  pub terminal : ℕ → Bool
  -- Whether the set-up of the k-th attempt raises an OSError.
  pub setup_fails : ℕ → Bool

pub record Wifi : Type 0 where
  pub was_connected : Bool
  pub connect_count : ℕ
  pub disconnect_count : ℕ
  -- The reads of isconnected() and of a status, and the slices of 100 ms slept.
  pub reads_done : ℕ
  pub statuses_done : ℕ
  pub slices : ℕ

abbrev pub counted_read : Wifi → Wifi
counted_read s = record s { reads_done = suc s.reads_done }

-- What a window comes to: it ended, or an OSError was raised in it.
pub data Window : Type 0 where
  ended raised : Window

abbrev sliced : Wifi → Wifi
sliced s = record s { statuses_done = suc s.statuses_done; slices = suc s.slices }

-- `while not isconnected() and wait_count < 200`, with so many slices to go.
pub window : Radio → ℕ → Wifi → Window × Wifi
window radio zero s = elim (radio.isconnected s.reads_done) [
  | reads b ↦ (ended, counted_read s)
  | os_error ↦ (raised, counted_read s)
]
window radio (suc n) s =
    let t = counted_read s in
    let rest = window radio n (sliced t) in
    elim (radio.isconnected s.reads_done) [
      | os_error ↦ (raised, t)
      | reads b ↦
          if b
          then (ended, t)
          else if radio.terminal s.statuses_done
          then (ended, record t { statuses_done = suc t.statuses_done })
          else rest
    ]

pub went_up : Wifi → Wifi
went_up s = record s {
  connect_count = if s.was_connected then s.connect_count else suc s.connect_count;
  was_connected = true;
}

pub went_down : Wifi → Wifi
went_down s = record s {
  disconnect_count = if s.was_connected then suc s.disconnect_count else s.disconnect_count;
  was_connected = false;
}

-- The read behind the window: up, or the attempt has failed.
pub judged : Radio → Window × Wifi → Bool × Wifi
unfolding went_up
judged radio (raised, s) = (false, s)
judged radio (ended, s) = elim (radio.isconnected s.reads_done) [
  | os_error ↦ (false, counted_read s)
  | reads b ↦ if b then (true, went_up (counted_read s)) else (false, counted_read s)
]

-- The k-th attempt; 200 slices at most.
pub attempt : Radio → ℕ → Wifi → Bool × Wifi
unfolding judged window
attempt radio k s = if radio.setup_fails k then (false, s) else judged radio (window radio 200 s)

abbrev retry_wait : ℕ → List ℕ → Wifi → Wifi
retry_wait delay_sec [] s = s
retry_wait delay_sec (d ∷ delays) s = record s { slices = s.slices + delay_sec * 10 }

-- An attempt that failed is marked, and the next one follows.
abbrev pub or_again : (Wifi → Bool × Wifi) → Bool × Wifi → Bool × Wifi
or_again again (true, s) = (true, s)
or_again again (false, s) = again s

pub connect_from : Radio → ℕ → List ℕ → Wifi → Bool × Wifi
unfolding attempt went_down
connect_from radio k [] s = (false, s)
connect_from radio k (delay_sec ∷ delays) s =
    or_again (λ t. connect_from radio (suc k) delays (retry_wait delay_sec delays (went_down t)))
      (attempt radio k s)

pub connect : Radio → List ℕ → Wifi → Bool × Wifi
unfolding connect_from
connect radio reconnect_delays_sec s = connect_from radio 0 reconnect_delays_sec s

-- The part of snapshot() that counts, after a first attempt; is_connected() answers False on an OSError.
unfoldable pub snapshot : Radio → Wifi → Bool × Wifi
unfolding went_up went_down
snapshot radio s = elim (radio.isconnected s.reads_done) [
  | os_error ↦ (false, went_down (counted_read s))
  | reads b ↦ if b then (true, went_up (counted_read s)) else (false, went_down (counted_read s))
]
