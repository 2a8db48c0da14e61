-- ===== src/LedManager.antt =====
-- led_manager.py: the onboard LED, one timer tick every 50 ms. The pin shows `output`, which only
-- a tick changes; a tick that finds the lock held is given as such.
use pico_dualcore.Prelude.{
  ℕ, zero, suc, ◌+◌, ◌-◌, Bool, true, false, not, Option, none, some, ◌≡◌, ◌∙◌, ap, arith,
  if◌then◌else◌, ltb,
}

-- 1000 ms // 50 ms
abbrev pub telemetry_pulse_ticks : ℕ
telemetry_pulse_ticks = 20

pub record LedManager : Type 0 where
  pub connecting : Bool
  pub telemetry_ticks_remaining : ℕ
  pub connecting_on : Bool
  pub output : ℕ

pub set_connecting : Bool → LedManager → LedManager
set_connecting connecting l = record l {
  connecting_on =
      if connecting then (if l.connecting then l.connecting_on else true) else l.connecting_on;
  connecting = connecting;
}

pub telemetry_sent : LedManager → LedManager
telemetry_sent l = record l { telemetry_ticks_remaining = telemetry_pulse_ticks }

-- The step under the lock; telemetry_ticks_remaining stops at 0, as subtraction does.
advance : LedManager → ℕ × LedManager
advance l = (
  (if l.connecting
      then if l.connecting_on then 1 else 0
      else if ltb 0 l.telemetry_ticks_remaining
      then 1
      else 0),
  record l {
    connecting_on = if l.connecting then not l.connecting_on else l.connecting_on;
    telemetry_ticks_remaining = l.telemetry_ticks_remaining - 1;
  },
)

next_output : Bool → LedManager → Option ℕ × LedManager
unfolding advance
next_output true l = (none, l)
next_output false l = let (output, l') = advance l in (some output, l')

show : Option ℕ × LedManager → LedManager
show (none, l) = l
show (some output, l) = record l { output = output }

-- `contended` tells whether the lock is held when the timer fires.
pub tick : Bool → LedManager → LedManager
unfolding next_output show
tick contended l = show (next_output contended l)

-- `k` ticks that find the lock free.
abbrev pub ticks : ℕ → LedManager → LedManager
ticks zero l = l
ticks (suc k) l = ticks k (tick false l)

-- While no connection is being made, the LED is on at the ticks that the pulse has left, and off
-- from the first after them.
pub ticks-output :
    (k : ℕ) (l : LedManager)
    → l.connecting ≡ false
    → (ticks (suc k) l).output ≡ (if ltb k l.telemetry_ticks_remaining then 1 else 0)
unfolding tick
ticks-output zero l c = ground arith
ticks-output (suc k) l c = let ih = ticks-output k (tick false l) (ground arith) in ground arith

abbrev twice : ℕ → ℕ
twice zero = 0
twice (suc k) = suc (suc (twice k))

twice_lem : (k : ℕ) → k + k ≡ twice k
twice_lem zero = omega arith
twice_lem (suc k) = omega (arith, twice_lem k)

blink :
    (k : ℕ) (l : LedManager)
    → l.connecting ≡ true
    → l.connecting_on ≡ true
    → ((ticks (suc (twice k)) l).output ≡ 1) × ((ticks (suc (suc (twice k))) l).output ≡ 0)
unfolding tick
blink zero l c o = ground arith
blink (suc k) l c o = blink k (tick false (tick false l)) (ground arith) (ground arith)

-- From the moment a connection attempt begins, the LED starts on and then alternates at each tick,
-- whatever pulse was asked for.
pub set_connecting-output :
    (k : ℕ) (l : LedManager)
    → l.connecting ≡ false
    → ((ticks (suc (k + k)) (set_connecting true l)).output ≡ 1)
      × ((ticks (suc (suc (k + k))) (set_connecting true l)).output ≡ 0)
unfolding set_connecting
set_connecting-output k l c =
    let e = twice_lem k in
    let h = blink k (set_connecting true l) (ground arith) (ground arith) in
    (
      ap (λ m. (ticks (suc m) (set_connecting true l)).output) e ∙ h.0,
      ap (λ m. (ticks (suc (suc m)) (set_connecting true l)).output) e ∙ h.1,
    )
