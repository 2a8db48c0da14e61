-- ===== src/ConfigManager/Atomic.antt =====
-- A write, any number of boots that are cut off, and a boot that is not.
use pico_dualcore.Prelude.{false, none, some, List, [], ◌∷◌, All, ◌≡◌, ap, ◌⊎◌, inl, inr, arith}
use pico_dualcore.Storage.{
  Trouble, io_error, memory_error, power_cut, Fault, fine, before, after, torn, Disk, World, Exn,
  config_error, trouble, Result, ok, err,
}
use pico_dualcore.Storage.Triple.{Within, Post, Stops}
use pico_dualcore.ConfigManager.{
  ConfigFormat, Written, Classification, unchanged, needs_reboot, begin_write, recover,
}
use pico_dualcore.ConfigManager.Load.{held}
use pico_dualcore.ConfigManager.Anchor.{Anchored, Settled}
use pico_dualcore.ConfigManager.Boot.{recover-Triple}
use pico_dualcore.ConfigManager.Commit.{Ready, Either, DoneAs, begin_write-Triple}

-- A boot that is cut off, or that ends for want of memory, at any operation.
abbrev pub Cut : Trouble → Type 0
Cut io_error = ⊥
Cut memory_error = Unit
Cut power_cut = Unit

abbrev No : Trouble → Type 0
No e = ⊥

abbrev pub chosen {ℓ} : {A : Type ℓ} → Classification → A → A → A
chosen unchanged p c = p
chosen needs_reboot p c = c

module _ (F : ConfigFormat) where
  open F use {Text, Config, Changes, dump, parse-dump, validate_config}

  -- A reset, after which the operations meet the faults of `s`.
  abbrev pub reset : List (Fault Text) → World Text → World Text
  reset s w = record w { reboot_required = false; script = s }

  abbrev pub boots : World Text → List (List (Fault Text)) → World Text
  boots w [] = w
  boots w (s ∷ ss) = boots (recover F (reset s w)).1 ss

  valid_dump : (c : Config) → validate_config c ≡ none → held F (some (dump c)) ≡ some c
  valid_dump c v = ground (arith, parse-dump c)

  -- One boot, cut off or not, keeps what the disk stands for.
  boot-Anchored :
      (x : Config) (s : List (Fault Text)) (w : World Text)
      → All (Within Cut) s
      → Anchored F x w.disk
      → Anchored F x (recover F (reset s w)).1.disk
  boot-Anchored x s w h a =
      on_result (recover F (reset s w)).0 _
        ((recover-Triple F {K = Cut} (λ z. z) x).at (reset s w) h a).0
    where
      on_result :
          (r : Result Config) (d : Disk Text)
          → Post (λ c d. (c ≡ x) × Settled F x d) (λ e d. Anchored F x d × Stops Cut e) r d
          → Anchored F x d
      on_result (ok c) d q = ground arith
      on_result (err e) d q = q.0

  boots-Anchored :
      (x : Config) (ss : List (List (Fault Text))) (w : World Text)
      → All (All (Within Cut)) ss
      → Anchored F x w.disk
      → Anchored F x (boots w ss).disk
  boots-Anchored x [] w h a = a
  boots-Anchored x (s ∷ ss) w h a =
      boots-Anchored x ss (recover F (reset s w)).1 h.1 (boot-Anchored x s w h.0 a)

  abbrev pub Recovers : Config → Result Config × World Text → Type 0
  Recovers x (r, w) = (r ≡ ok x) × Settled F x w.disk

  -- A boot without faults returns what the disk stands for, in the steady state.
  pub recover-Anchored :
      (x : Config) (w : World Text) → Anchored F x w.disk → Recovers x (recover F (reset [] w))
  recover-Anchored x w a =
      on_result (recover F (reset [] w)).0 (recover F (reset [] w)).1
        ((recover-Triple F {K = No} (λ z. z) x).at (reset [] w) tt a).0
    where
      nothing : (e : Exn) → Stops No e → ⊥
      nothing (config_error c) h = h
      nothing (trouble t) h = h

      on_result :
          (r : Result Config) (w : World Text)
          → Post (λ c d. (c ≡ x) × Settled F x d) (λ e d. Anchored F x d × Stops No e) r w.disk
          → Recovers x (r, w)
      on_result (ok c) w q = (ap ok q.0, q.1)
      on_result (err e) w q = absurd (nothing e q.1)

  -- From a disk that stands for x (config.json holds it, valid, with no .old; or .old holds it, valid,
  -- with no .cleanup; or .cleanup holds it, valid, with no .old and no config.json), boots that are cut
  -- off at any operation, with a reset between them, do not change that the first boot without faults
  -- recovers x, and that boot leaves one valid config.json.
  pub recover_restartable :
      (x : Config) (w : World Text) (ss : List (List (Fault Text)))
      → Anchored F x w.disk
      → All (All (Within Cut)) ss
      → Recovers x (recover F (reset [] (boots w ss)))
  recover_restartable x w ss a h = recover-Anchored x (boots w ss) (boots-Anchored x ss w h a)

  written :
      (p c : Config) (r : Result (Written Changes)) (d : Disk Text)
      → Post (λ v d. DoneAs F p c v.classification d) (λ e d. Either F p c d) r d
      → Either F p c d
  written p c (ok v) d q = ground arith
  written p c (err e) d q = q

  abbrev Any : Trouble → Type 0
  Any e = Unit

  each : (x : Fault Text) → Within Any x
  each fine = tt
  each (before e) = tt
  each (after e) = tt
  each (torn t e) = tt

  any : (s : List (Fault Text)) → All (Within Any) s
  any [] = tt
  any (x ∷ s) = (each x, any s)

  module _ (p c : Config) (w : World Text) (ready : Ready F p w.disk)
      (valid : validate_config c ≡ none) where
    begin_write-Post :
        Post
          (λ v d. DoneAs F p c v.classification d)
          (λ e d. Either F p c d)
          (begin_write F c w).0
          (begin_write F c w).1.disk
    begin_write-Post =
        ((begin_write-Triple F p c {K = Any} (valid_dump c valid)).at w (any w.script) ready).0

    -- A write of a valid candidate `c` over the steady state of `p` is atomic: whatever faults it
    -- meets, storage errors, lost memory and power cuts at any operation, and however many boots
    -- are then cut off at any operation, the first boot without faults returns `p` or `c` and
    -- leaves one valid config.json that holds it.
    pub begin_write_atomic :
        (ss : List (List (Fault Text)))
        → All (All (Within Cut)) ss
        → let next = recover F (reset [] (boots (begin_write F c w).1 ss)) in
          Recovers p next ⊎ Recovers c next
    begin_write_atomic ss cuts =
        elim (written p c (begin_write F c w).0 (begin_write F c w).1.disk begin_write-Post) [
          | inl a ↦ inl (recover_restartable p (begin_write F c w).1 ss a cuts)
          | inr a ↦ inr (recover_restartable c (begin_write F c w).1 ss a cuts)
        ]

    done :
        (v : Written Changes) (r : Result (Written Changes)) (d : Disk Text)
        → r ≡ ok v
        → Post (λ v d. DoneAs F p c v.classification d) (λ e d. Either F p c d) r d
        → Anchored F (chosen v.classification p c) d
    done v (ok u) d e q = ground arith
    done v (err u) d e q = cc

    -- A write that returns is durable under the same faults: what is recovered is the candidate
    -- where it reported a pending reboot, and the configuration of before where it reported none.
    pub begin_write_durable :
        (v : Written Changes) (ss : List (List (Fault Text)))
        → (begin_write F c w).0 ≡ ok v
        → All (All (Within Cut)) ss
        → Recovers
            (chosen v.classification p c)
            (recover F (reset [] (boots (begin_write F c w).1 ss)))
    begin_write_durable v ss e cuts =
        recover_restartable _ (begin_write F c w).1 ss
          (done v (begin_write F c w).0 (begin_write F c w).1.disk e begin_write-Post) cuts
