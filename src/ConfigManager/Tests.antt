-- ===== src/ConfigManager/Tests.antt =====
-- The theorems of the transaction at concrete inputs: a configuration is a number below 100, its
-- text is the number.
use pico_dualcore.Prelude.{
  ℕ, ◌+◌, false, true, none, some, List, [], ◌∷◌, ◌≡◌, refl, ◌⊎◌, inl, if◌then◌else◌, ltb, ◌==◌,
  arith,
}
use pico_dualcore.Storage.{
  io_error, memory_error, power_cut, Fault, fine, before, after, torn, World, ok, invalid_value,
  ◌>>=◌, rescue, exists, remove, rename, sync, read, write,
}
use pico_dualcore.ConfigManager.{ConfigFormat, Written, needs_reboot, begin_write, recover}
use pico_dualcore.ConfigManager.Atomic.{
  reset, boots, Recovers, recover_restartable, begin_write_atomic, begin_write_durable,
}
use pico_dualcore.ConfigManager.Stale.{provisioned, committed_write, stale_cleanup_wins}

abbrev small : ConfigFormat
small = record {
  Text = ℕ;
  Config = ℕ;
  Changes = ℕ;
  parse = λ t. some t;
  dump = λ c. c;
  validate_config = λ c. if ltb c 100 then none else some invalid_value;
  same = λ a b. a == b;
  changes_summary = λ a b. a + b;
  parse-dump = λ c. refl;
}

-- A steady disk of 3; the faults to come are `s`.
abbrev steady : List (Fault ℕ) → World ℕ
steady s = record {
  disk = record { config = some 3; tmp = none; old = none; cleanup = none };
  reboot_required = false;
  script = s;
}

-- The second rename fails, and the restoration is cut off.
abbrev bad_luck : List (Fault ℕ)
bad_luck = fine ∷ torn 77 io_error ∷ fine ∷ fine ∷ after power_cut ∷ []

abbrev two_cuts : List (List (Fault ℕ))
two_cuts = (fine ∷ fine ∷ after power_cut ∷ []) ∷ (before memory_error ∷ []) ∷ []

begin_write_atomic_example :
    let next =
      recover small
        (reset small [] (boots small (begin_write small 5 (steady bad_luck)).1 two_cuts)) in
    Recovers small 3 next ⊎ Recovers small 5 next
begin_write_atomic_example =
    begin_write_atomic small 3 5 (steady bad_luck) ((refl, refl), refl) refl two_cuts (omega arith)

abbrev written_five : Written ℕ
written_five = record { classification = needs_reboot; changes = 8; reboot_required = true }

five_is_written : (begin_write small 5 (steady [])).0 ≡ ok written_five
unfolding begin_write exists remove rename sync read write rescue ◌>>=◌
five_is_written = refl

begin_write_durable_example :
    Recovers small 5
      (recover small (reset small [] (boots small (begin_write small 5 (steady [])).1 two_cuts)))
begin_write_durable_example =
    begin_write_durable small 3 5 (steady []) ((refl, refl), refl) refl written_five two_cuts
      five_is_written (omega arith)

recover_restartable_example :
    Recovers small 3 (recover small (reset small [] (boots small (steady []) two_cuts)))
recover_restartable_example =
    recover_restartable small 3 (steady []) two_cuts (inl (refl, refl)) (omega arith)

stale_cleanup_wins_example :
    let (r, w) = begin_write small 4 (provisioned small 3) in
    let w' = (begin_write small 5 w).1 in
    (r ≡ ok (committed_write small 3 4))
    × (w'.disk.old ≡ some 4)
    × ((recover small (reset small [] w')).0 ≡ ok 3)
stale_cleanup_wins_example = stale_cleanup_wins small 3 4 5 refl refl refl refl refl
