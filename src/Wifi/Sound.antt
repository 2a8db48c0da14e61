-- ===== src/Wifi/Sound.antt =====
-- The counts of the connection, and how long connect waits.
use pico_dualcore.Prelude.{
  ℕ, zero, suc, ◌+◌, ◌*◌, ◌≤◌, Bool, true, false, List, [], ◌∷◌, if◌then◌else◌, ◌≡◌, arith,
}
use pico_dualcore.Wifi.{
  Answer, reads, os_error, Radio, Wifi, Window, ended, raised, counted_read, window, went_up,
  went_down, judged, attempt, retry_wait, or_again, connect_from, connect, snapshot, sliced,
}

abbrev one : Bool → ℕ
one true = 1
one false = 0

-- Of the connections counted, all but the one that is up are counted as lost.
abbrev pub Balanced : Wifi → Type 0
Balanced s = s.connect_count ≡ s.disconnect_count + one s.was_connected

-- From s, the counts still balance and at most n slices are slept.
record Within (n : ℕ) (s t : Wifi) : Type 0 where
  balanced : Balanced t
  slept : t.slices ≤ s.slices + n

went_up-Within : (n : ℕ) (s t : Wifi) → Within n s t → Within n s (went_up t)
unfolding went_up
went_up-Within n s t h = record {
  balanced = go t.was_connected t.connect_count t.disconnect_count h.balanced;
  slept = h.slept;
}
  where
    go : (b : Bool) (c d : ℕ) → c ≡ d + one b → (if b then c else suc c) ≡ d + 1
    go true c d h = h
    go false c d h = omega arith

went_down-Within : (n : ℕ) (s t : Wifi) → Within n s t → Within n s (went_down t)
unfolding went_down
went_down-Within n s t h = record {
  balanced = go t.was_connected t.connect_count t.disconnect_count h.balanced;
  slept = h.slept;
}
  where
    go : (b : Bool) (c d : ℕ) → c ≡ d + one b → c ≡ (if b then suc d else d) + 0
    go true c d h = omega arith
    go false c d h = omega arith

here : (n : ℕ) (s : Wifi) → Balanced s → Within n s (counted_read s)
here n s h = record { balanced = h; slept = omega arith }

window-Within : (radio : Radio) (n : ℕ) (s : Wifi) → Balanced s → Within n s (window radio n s).1
unfolding window
window-Within radio zero s h = go (radio.isconnected s.reads_done)
  where
    go :
        (a : Answer)
        → Within 0 s
            (elim a as (λ x. Window × Wifi) [
              | reads b ↦ (ended, counted_read s)
              | os_error ↦ (raised, counted_read s)
            ]).1
    go (reads b) = here 0 s h
    go os_error = here 0 s h
window-Within radio (suc n) s h =
    go (radio.isconnected s.reads_done) (radio.terminal s.statuses_done)
      (window-Within radio n (sliced (counted_read s)) h)
  where
    go :
        (a : Answer) (t : Bool)
        → Within n (sliced (counted_read s)) (window radio n (sliced (counted_read s))).1
        → Within
            (suc n)
            s
            (elim a as (λ x. Window × Wifi) [
              | os_error ↦ (raised, counted_read s)
              | reads b ↦
                  if b
                  then (ended, counted_read s)
                  else if t
                  then (ended, record (counted_read s) { statuses_done = suc s.statuses_done })
                  else window radio n (sliced (counted_read s))
            ]).1
    go os_error t ih = here (suc n) s h
    go (reads true) t ih = here (suc n) s h
    go (reads false) true ih = record { balanced = h; slept = omega arith }
    go (reads false) false ih = record {
      balanced = ih.balanced;
      slept = let p = ih.slept in omega arith;
    }

judged-Within :
    (radio : Radio) (n : ℕ) (s : Wifi) (r : Window × Wifi)
    → Within n s r.1
    → Within n s (judged radio r).1
unfolding judged
judged-Within radio n s (raised, t) h = h
judged-Within radio n s (ended, t) h = go (radio.isconnected t.reads_done)
  where
    read : Within n s (counted_read t)
    read = record { balanced = h.balanced; slept = h.slept }

    go :
        (a : Answer)
        → Within n s
            (elim a as (λ x. Bool × Wifi) [
              | os_error ↦ (false, counted_read t)
              | reads b ↦ if b then (true, went_up (counted_read t)) else (false, counted_read t)
            ]).1
    go os_error = read
    go (reads true) = went_up-Within n s (counted_read t) read
    go (reads false) = read

attempt-Within :
    (radio : Radio) (k : ℕ) (s : Wifi) → Balanced s → Within 200 s (attempt radio k s).1
unfolding attempt
attempt-Within radio k s h = go (radio.setup_fails k)
  where
    go : (b : Bool) → Within 200 s (if b then (false, s) else judged radio (window radio 200 s)).1
    go true = record { balanced = h; slept = omega arith }
    go false = judged-Within radio 200 s (window radio 200 s) (window-Within radio 200 s h)

-- The longest that the delays let connect wait, in slices.
abbrev pub longest : List ℕ → ℕ
longest [] = 0
longest (d ∷ delays) = 200 + d * 10 + longest delays

retry_wait-Within :
    (n delay_sec : ℕ) (delays : List ℕ) (s t : Wifi)
    → Within n s t
    → Within (n + delay_sec * 10) s (retry_wait delay_sec delays t)
retry_wait-Within n delay_sec [] s t h = record {
  balanced = h.balanced;
  slept = let p = h.slept in omega arith;
}
retry_wait-Within n delay_sec (d ∷ delays) s t h = record {
  balanced = h.balanced;
  slept = let p = h.slept in omega arith;
}

or_again-Within :
    (n m : ℕ) (s : Wifi) (again : Wifi → Bool × Wifi) (r : Bool × Wifi)
    → Within n s r.1
    → ((t : Wifi) → Within n s t → Within (n + m) s (again t).1)
    → Within (n + m) s (or_again again r).1
or_again-Within n m s again (true, t) h g = record {
  balanced = h.balanced;
  slept = let p = h.slept in omega arith;
}
or_again-Within n m s again (false, t) h g = g t h

connect_from-Within :
    (radio : Radio) (k : ℕ) (delays : List ℕ) (s : Wifi)
    → Balanced s
    → Within (longest delays) s (connect_from radio k delays s).1
unfolding connect_from
connect_from-Within radio k [] s h = record { balanced = h; slept = omega arith }
connect_from-Within radio k (delay_sec ∷ delays) s h =
    let r =
      or_again-Within 200 (delay_sec * 10 + longest delays) s
        (λ t. connect_from radio (suc k) delays (retry_wait delay_sec delays (went_down t)))
        (attempt radio k s) (attempt-Within radio k s h)
        (λ t w.
          let a =
            retry_wait-Within 200 delay_sec delays s (went_down t) (went_down-Within 200 s t w) in
          let b =
            connect_from-Within radio (suc k) delays (retry_wait delay_sec delays (went_down t))
              a.balanced in
          record {
            balanced = b.balanced;
            slept = let p = a.slept in let q = b.slept in omega arith;
          }) in
    record { balanced = r.balanced; slept = let p = r.slept in omega arith }

-- connect ends within 200 slices for each attempt and the delays, in seconds of ten slices, whatever the
-- radio answers, and it and snapshot keep the counts balanced: of the connections counted, all but the
-- one that is up are counted as lost.
pub connect-Balanced :
    (radio : Radio) (reconnect_delays_sec : List ℕ) (s : Wifi)
    → Balanced s
    → let (up, t) = connect radio reconnect_delays_sec s in
      Balanced t
      × (t.slices ≤ s.slices + longest reconnect_delays_sec)
      × Balanced (snapshot radio s).1
unfolding connect snapshot
connect-Balanced radio delays s h =
    let w = connect_from-Within radio 0 delays s h in
    (w.balanced, w.slept, go (radio.isconnected s.reads_done))
  where
    go :
        (a : Answer)
        → Balanced
            (elim a as (λ x. Bool × Wifi) [
              | os_error ↦ (false, went_down (counted_read s))
              | reads b ↦
                  if b
                  then (true, went_up (counted_read s))
                  else (false, went_down (counted_read s))
            ]).1
    go os_error = (went_down-Within 0 s (counted_read s) (here 0 s h)).balanced
    go (reads true) = (went_up-Within 0 s (counted_read s) (here 0 s h)).balanced
    go (reads false) = (went_down-Within 0 s (counted_read s) (here 0 s h)).balanced
