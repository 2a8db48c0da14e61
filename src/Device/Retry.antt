-- ===== src/Device/Retry.antt =====
-- The attempts at driver.initialize(), and the sleeps between them.
use pico_dualcore.Prelude.{
  ℕ, zero, suc, ◌+◌, ◌-◌, ◌≤◌, ◌<◌, min, String, Option, none, some, List, [], ◌∷◌, ◌≡◌, refl, All,
  arith, if◌then◌else◌, ltb, Bool-cases, inl, inr,
}
use native.Mathlib.Decide.{dec_lt}
use pico_dualcore.Device.{Init, initialized, init_os_error, init_defect}

-- How the attempts end: the number of the attempt, the last error, and the sleeps made.
pub data Attempts : Type 0 where
  succeeded : ℕ → ℕ → Attempts
  exhausted : ℕ → Option String → ℕ → Attempts
  broken : ℕ → Attempts

-- `for attempt in range(1, limit + 1)`, with `left` attempts to go; the outcome of an attempt is
-- given by its number.
module _ (limit : ℕ) (outcome : ℕ → Init) where
  unfoldable pub attempts_from : ℕ → ℕ → ℕ → Option String → ℕ → Attempts
  attempts_from zero attempt used last sleeps = exhausted used last sleeps
  attempts_from (suc left) attempt used last sleeps = elim (outcome attempt) [
    | initialized ↦ succeeded attempt sleeps
    | init_os_error error ↦
        attempts_from left (suc attempt) attempt (some error)
          (if ltb attempt limit then sleeps + 1 else sleeps)
    | init_defect ↦ broken attempt
  ]

  unfoldable pub initialize_driver_with_retries : Attempts
  unfolding attempts_from
  initialize_driver_with_retries = attempts_from limit 1 0 none 0

  -- The attempts from `a` up to, but without, `b` all raised an OSError.
  pub record Failed (a b : ℕ) : Type 0 where
    pub at : (k : ℕ) → a ≤ k → k < b → (e : String) × (outcome k ≡ init_os_error e)

  -- What the end of the attempts says of them.
  abbrev pub Explained : ℕ → Attempts → Type 0
  Explained from (succeeded k sleeps) =
      (k ≤ limit) × (outcome k ≡ initialized) × Failed from k × (sleeps + 1 ≡ k)
  Explained from (exhausted used last sleeps) =
      (used ≡ limit) × Failed from (suc limit) × (sleeps ≡ limit - 1)
  Explained from (broken k) = (k ≤ limit) × (outcome k ≡ init_defect) × Failed from k

  extend :
      (k : ℕ) (e : String) (b : ℕ) → outcome k ≡ init_os_error e → Failed (suc k) b → Failed k b
  extend k e b o f = record { at = λ j lo hi. first j (dec_lt k j) lo hi }
    where
      first : (j : ℕ) → Dec (k < j) → k ≤ j → j < b → (e : String) × (outcome j ≡ init_os_error e)
      first j (yes more) lo hi = f.at j more hi
      first j (no same) lo hi = (e, let q : j ≡ k = omega arith in rw q o)

  nothing : (a : ℕ) → Failed a a
  nothing a = record { at = λ k lo hi. absurd (omega arith) }

  lift :
      (a : ℕ) (e : String) (r : Attempts)
      → outcome a ≡ init_os_error e
      → Explained (suc a) r
      → Explained a r
  lift a e (succeeded k sleeps) o h = (h.0, h.1, extend a e k o h.2, h.3)
  lift a e (exhausted used last sleeps) o h = (h.0, extend a e (suc limit) o h.1, h.2)
  lift a e (broken k) o h = (h.0, h.1, extend a e k o h.2)

  attempts_from-Explained :
      (left attempt used : ℕ) (last : Option String) (sleeps : ℕ)
      → attempt + left ≡ suc limit
      → used + 1 ≡ attempt
      → sleeps ≡ min attempt limit - 1
      → Explained attempt (attempts_from left attempt used last sleeps)
  unfolding attempts_from
  attempts_from-Explained zero attempt used last sleeps a u s =
      let e : attempt ≡ suc limit = omega arith in
      (omega arith, rw e (nothing (suc limit)), omega arith)
  attempts_from-Explained (suc left) attempt used last sleeps a u s =
      go (outcome attempt) refl (λ error.
        attempts_from-Explained left (suc attempt) attempt (some error)
          (if ltb attempt limit then sleeps + 1 else sleeps) (omega arith) (omega arith)
          (ground arith))
    where
      go :
          (o : Init)
          → outcome attempt ≡ o
          → ((error : String)
              → Explained (suc attempt) (
                  attempts_from left
                    (suc attempt)
                    attempt
                    (some error)
                    (if ltb attempt limit then sleeps + 1 else sleeps)))
          → Explained attempt (elim o [
            | initialized ↦ succeeded attempt sleeps
            | init_os_error error ↦
                attempts_from left
                  (suc attempt)
                  attempt
                  (some error)
                  (if ltb attempt limit then sleeps + 1 else sleeps)
            | init_defect ↦ broken attempt
          ])
      go initialized o ih = (omega arith, o, nothing attempt, omega arith)
      go (init_os_error error) o ih = lift attempt error _ o (ih error)
      go init_defect o ih = (omega arith, o, nothing attempt)

  -- The attempts end at the first that does not raise an OSError: success at attempt k means that
  -- the k - 1 before it raised one, with a sleep after each; exhaustion means that all the configured
  -- attempts raised one, with a sleep between each two and none after the last.
  pub initialize_driver_with_retries-Explained : Explained 1 initialize_driver_with_retries
  unfolding initialize_driver_with_retries
  initialize_driver_with_retries-Explained =
      attempts_from-Explained limit 1 0 none 0 (omega arith) (omega arith) (omega arith)

-- _sleep_with_activity_refresh: the length of each sleep, with a refresh after it. Each takes at
-- least a millisecond off the delay, so the delay itself is enough fuel.
unfoldable pub sleep_steps : ℕ → ℕ → List ℕ
sleep_steps zero delay_ms = []
sleep_steps (suc fuel) delay_ms =
    let step_ms = min delay_ms 100 in
    let rest = sleep_steps fuel (delay_ms - step_ms) in
    if ltb 0 delay_ms then step_ms ∷ rest else []

unfoldable pub sleep_with_activity_refresh : ℕ → List ℕ
unfolding sleep_steps
sleep_with_activity_refresh delay_ms = sleep_steps delay_ms delay_ms

pub total : List ℕ → ℕ
total [] = 0
total (x ∷ xs) = x + total xs

sleep_steps_lem :
    (fuel delay_ms : ℕ)
    → delay_ms ≤ fuel
    → (total (sleep_steps fuel delay_ms) ≡ delay_ms)
      × All (λ s. s ≤ 100) (sleep_steps fuel delay_ms)
unfolding sleep_steps total
sleep_steps_lem zero delay_ms h = (omega arith, tt)
sleep_steps_lem (suc fuel) delay_ms h = elim (Bool-cases (ltb 0 delay_ms)) [
  | inl more ↦
      let ih = sleep_steps_lem fuel (delay_ms - min delay_ms 100) (ground arith) in
      rw more (omega (arith, ih.0), (omega arith, ih.1))
  | inr done ↦ rw done (ground arith, tt)
]

-- The sleeps add up to the delay, and the liveness stamp is refreshed at least every 100 ms.
pub sleep_with_activity_refresh_lem :
    (delay_ms : ℕ)
    → (total (sleep_with_activity_refresh delay_ms) ≡ delay_ms)
      × All (λ s. s ≤ 100) (sleep_with_activity_refresh delay_ms)
unfolding sleep_with_activity_refresh
sleep_with_activity_refresh_lem delay_ms = sleep_steps_lem delay_ms delay_ms (omega arith)
