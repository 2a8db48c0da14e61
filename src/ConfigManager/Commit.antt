-- ===== src/ConfigManager/Commit.antt =====
-- begin_write() from the steady state, under any faults.
use pico_dualcore.Prelude.{
  Bool, true, false, if◌then◌else◌, Option, none, some, ◌≡◌, ◌⊎◌, inl, inr, is_some, arith,
}
use pico_dualcore.Storage.{
  FilePath, config_path, tmp_path, old_path, cleanup_path, Trouble, io_error, memory_error,
  power_cut, Disk, Exn, config_error, trouble, Code, pure, exists, ◌>>=◌,
}
use pico_dualcore.Storage.Triple.{
  Triple, Triple-pure, Triple-raise, Triple-bind, Triple-rescue, Triple-from, Triple-weaken,
  exists-Triple, rename-Triple, sync-Triple, write-Triple, Stops,
}
use pico_dualcore.ConfigManager.{
  ConfigFormat, Classification, unchanged, needs_reboot, transaction, write_candidate_tmp,
  restore_backup, backup_path, restore_committed, ignore_io, try_restore, abandon,
  mark_reboot_required, clean_up, report, commit_changed, begin_write, raise_code,
}
use pico_dualcore.ConfigManager.Anchor.{Committed, Rollback, Fallback, Anchored}
use pico_dualcore.ConfigManager.Load.{held, load_config-Triple, remove_if_exists-Triple}

module _ (F : ConfigFormat) where
  open F use {Text, Config, Changes, dump, parse, parse-dump, validate_config, same}

  -- The steady state before a write; a leftover .tmp is allowed.
  abbrev pub Ready : Config → Disk Text → Type 0
  Ready p d = Committed F p d × (d.cleanup ≡ none)

  module _ (p c : Config) where
    -- The rename to .cleanup was made: config.json holds the candidate, .cleanup what it replaced.
    abbrev pub Switched : Disk Text → Type 0
    Switched d = Committed F c d × (held F d.cleanup ≡ some p)

    -- Where the transaction may stop.
    abbrev pub Midway : Disk Text → Type 0
    Midway d = Ready p d ⊎ Rollback F p d ⊎ Switched d

    -- The disk stands for one of the two configurations.
    abbrev pub Either : Disk Text → Type 0
    Either d = Anchored F p d ⊎ Anchored F c d

    -- What a write that returns has done to the steady disk.
    abbrev pub DoneAs : Classification → Disk Text → Type 0
    DoneAs unchanged d = Ready p d
    DoneAs needs_reboot d = Committed F c d

    abbrev Staged : Disk Text → Type 0
    Staged d = Ready p d × (held F d.tmp ≡ some c)

    module _ {K : Trouble → Type 0} where
      transaction-Triple :
          held F (some (dump c)) ≡ some c
          → Triple K (Ready p) (transaction F c) (λ _ d. Switched d) (λ e d. Midway d)
      unfolding transaction write_candidate_tmp
      transaction-Triple v =
          Triple-bind _ _
            (Triple-weaken _ (λ d h. h) (λ a d h. h) (λ e d h. h.0)
              (write-Triple {R = Midway} {Q = Staged} tmp_path (dump c) (λ d h. ground arith)
                (λ d h. inl h) (λ d u h. inl h)))
            λ _.
              Triple-bind _ _
                (Triple-weaken _ (λ d h. h) (λ a d h. h.0) (λ e d h. inl h.0.0)
                  (load_config-Triple F {P = Staged} tmp_path))
                λ _.
                  Triple-bind _ _
                    (Triple-weaken _ (λ d h. h) (λ a d h. h) (λ e d h. h.0)
                      (rename-Triple {R = Midway}
                        {Q = λ d. Rollback F p d × (held F d.tmp ≡ some c)} config_path old_path
                        (λ d h. ground arith) (λ d t h e. ground arith) (λ d h. inl h.0)
                        (λ d h. inr (inl h.0))))
                    λ _.
                      Triple-bind _ _
                        (Triple-weaken _ (λ d h. h) (λ a d h. h) (λ e d h. h.0)
                          (rename-Triple {R = Midway}
                            {Q = λ d. Rollback F p d × (held F d.config ≡ some c)} tmp_path
                            config_path (λ d h. ground arith) (λ d t h e. ground arith)
                            (λ d h. inr (inl h.0)) (λ d h. inr (inl h.0))))
                        λ _.
                          Triple-bind _ _
                            (Triple-weaken _ (λ d h. h) (λ a d h. h) (λ e d h. h.0)
                              (sync-Triple {R = Midway} (λ d h. inr (inl h.0))))
                            λ _.
                              Triple-bind _ _
                                (Triple-weaken _ (λ d h. h) (λ a d h. h) (λ e d h. h.0)
                                  (rename-Triple {R = Midway} {Q = Switched} old_path cleanup_path
                                    (λ d h. ground arith) (λ d t h e. ground arith)
                                    (λ d h. inr (inl h.0)) (λ d h. inr (inr h))))
                                λ _.
                                  Triple-weaken _ (λ d h. h) (λ a d h. h) (λ e d h. h.0)
                                    (sync-Triple {R = Midway} (λ d h. inr (inr h)))

    -- What backup_path chooses on a disk where the transaction stopped.
    abbrev Chosen : Option FilePath → Disk Text → Type 0
    Chosen none d = Ready p d
    Chosen (some old_path) d = Rollback F p d
    Chosen (some cleanup_path) d = Switched d
    Chosen (some q) d = ⊥

    module _ {K : Trouble → Type 0} where
      backup_path-Triple : Triple K Midway (backup_path F) Chosen (λ e d. Midway d × Stops K e)
      unfolding backup_path
      backup_path-Triple = Triple-bind _ _ (exists-Triple old_path (λ d h. h)) on_old
        where
          on_cleanup :
              (b : Bool)
              → Triple K
                  (λ d. (Midway d × (is_some d.old ≡ false)) × (is_some d.cleanup ≡ b))
                  (pure (if b then some cleanup_path else none))
                  Chosen
                  (λ e d. Midway d × Stops K e)
          on_cleanup true = Triple-pure _ (λ d h. ground arith)
          on_cleanup false = Triple-pure _ (λ d h. ground arith)

          on_old :
              (b : Bool)
              → Triple K
                  (λ d. Midway d × (is_some d.old ≡ b))
                  (if b then pure (some old_path) else do
                    cleanup ← exists cleanup_path
                    pure (if cleanup then some cleanup_path else none))
                  Chosen
                  (λ e d. Midway d × Stops K e)
          on_old true = Triple-pure _ (λ d h. ground arith)
          on_old false = Triple-bind _ _ (exists-Triple cleanup_path (λ d h. h.0)) on_cleanup

      restore_backup-Triple :
          (b : Option FilePath)
          → Triple K
              (Chosen b)
              (restore_backup F b)
              (λ _ d. Ready p d)
              (λ e d. Either d × Stops K e)
      unfolding restore_backup
      restore_backup-Triple none = Triple-pure tt (λ d h. h)
      restore_backup-Triple (some old_path) =
          Triple-bind _ _
            (remove_if_exists-Triple F {Q = Rollback F p} config_path (λ d h. ground arith)
              (λ d h. inl (inr (inl h))) (λ d h. inl (inr (inl h))))
            λ _.
              rename-Triple old_path config_path (λ d h. ground arith) (λ d t h e. ground arith)
                (λ d h. inl (inr (inl h))) (λ d h. inl (inl h.0))
      restore_backup-Triple (some cleanup_path) =
          Triple-bind _ _
            (remove_if_exists-Triple F {Q = Fallback F p} config_path (λ d h. ground arith)
              (λ d h. inr (inl h.0)) (λ d h. inl (inr (inr h))))
            λ _.
              rename-Triple cleanup_path config_path (λ d h. ground arith) (λ d t h e. ground arith)
                (λ d h. inl (inr (inr h))) (λ d h. inl (inl h.0))
      restore_backup-Triple (some config_path) = Triple-from {E = ⊥} _ (λ d h. h) (λ z. absurd z)
      restore_backup-Triple (some tmp_path) = Triple-from {E = ⊥} _ (λ d h. h) (λ z. absurd z)

      restore_committed-Triple :
          Triple K Midway
            (restore_committed F)
            (λ _ d. Ready p d × (d.tmp ≡ none))
            (λ e d. Either d × Stops K e)
      unfolding restore_committed
      restore_committed-Triple =
          Triple-bind _ _
            (Triple-weaken _ (λ d h. h) (λ a d h. h) (λ e d h. (ground arith, h.1))
              backup_path-Triple)
            λ b. Triple-bind _ _ (restore_backup-Triple b) λ _.
              Triple-bind _ _
                (remove_if_exists-Triple F {Q = λ d. Ready p d × (d.tmp ≡ none)} tmp_path
                  (λ d h. ground arith) (λ d h. inl (inl h.0)) (λ d h. inl (inl h.0.0)))
                λ _. sync-Triple (λ d h. inl (inl h.0.0))

      ignore_io-Triple :
          {P : Disk Text → Type 0} (e : Exn)
          → Triple K (λ d. P d × Stops K e) (ignore_io F e) (λ _ d. P d) (λ e d. P d × Stops K e)
      unfolding ignore_io
      ignore_io-Triple (config_error c) = Triple-raise _ (λ d h. h)
      ignore_io-Triple (trouble io_error) = Triple-pure tt (λ d h. h.0)
      ignore_io-Triple (trouble memory_error) = Triple-raise _ (λ d h. h)
      ignore_io-Triple (trouble power_cut) = Triple-raise _ (λ d h. h)

      try_restore-Triple : Triple K Midway (try_restore F) (λ _ d. Either d) (λ e d. Either d)
      unfolding try_restore
      try_restore-Triple =
          Triple-rescue _ _
            (Triple-weaken _ (λ d h. h) (λ a d h. inl (inl h.0.0)) (λ e d h. h)
              restore_committed-Triple)
            (λ e. Triple-weaken _ (λ d h. h) (λ a d h. h) (λ e d h. h.0) (ignore_io-Triple e))

      abandon-Triple :
          {Q : Disk Text → Type 0} (e : Exn)
          → Triple K Midway (abandon F e) (λ _ d. Q d) (λ e d. Either d)
      unfolding abandon
      abandon-Triple (trouble io_error) =
          Triple-bind _ _ try_restore-Triple (λ _. Triple-raise _ (λ d h. h))
      abandon-Triple (config_error code) =
          Triple-bind _ _ try_restore-Triple (λ _. Triple-raise _ (λ d h. h))
      abandon-Triple (trouble memory_error) = Triple-raise _ (λ d h. ground arith)
      abandon-Triple (trouble power_cut) = Triple-raise _ (λ d h. ground arith)

      clean_up-Triple : Triple K Switched (clean_up F) (λ _ d. Committed F c d) (λ e d. Either d)
      unfolding clean_up
      clean_up-Triple =
          Triple-rescue _ _
            (Triple-bind _ _
              (remove_if_exists-Triple F {Q = Committed F c} cleanup_path (λ d h. ground arith)
                (λ d h. h.0) (λ d h. h))
              λ _. sync-Triple {R = Committed F c} (λ d h. h))
            (λ e.
              Triple-weaken _ (λ d h. h) (λ a d h. h) (λ e d h. inr (inl h.0)) (ignore_io-Triple e))

      report-Triple :
          {P : Disk Text → Type 0} (k : Classification) (v : Changes)
          → ((d : Disk Text) → P d → DoneAs k d)
          → Triple K P (report F k v) (λ r d. DoneAs r.classification d) (λ e d. Either d)
      unfolding report
      report-Triple k v h = record { at = λ w s q. (h w.disk q, s) }

      commit_changed-Triple :
          (v : Changes)
          → held F (some (dump c)) ≡ some c
          → Triple K
              (Ready p)
              (commit_changed F c v)
              (λ r d. DoneAs r.classification d)
              (λ e d. Either d)
      unfolding commit_changed mark_reboot_required
      commit_changed-Triple v valid =
          Triple-bind _ _ (Triple-rescue _ _ (transaction-Triple valid) abandon-Triple) λ _.
            Triple-bind {Q = λ _ d. Switched d} _ _ (record { at = λ w s q. (q, s) })
              λ _. Triple-bind _ _ clean_up-Triple (λ _. report-Triple needs_reboot v (λ d h. h))

      pub begin_write-Triple :
          held F (some (dump c)) ≡ some c
          → Triple K
              (Ready p)
              (begin_write F c)
              (λ r d. DoneAs r.classification d)
              (λ e d. Either d)
      unfolding begin_write
      begin_write-Triple valid = Triple-bind _ _ (raise_code-Triple (validate_config c)) λ _.
          Triple-bind _ _
            (Triple-weaken _ (λ d h. h) (λ a d h. h.0) (λ e d h. inl (inl h.0.0))
              (load_config-Triple F config_path))
            λ old. on_same old (same c old)
        where
          raise_code-Triple :
              (o : Option Code)
              → Triple K (Ready p) (raise_code F o c) (λ _ d. Ready p d) (λ e d. Either d)
          raise_code-Triple none = Triple-pure _ (λ d h. h)
          raise_code-Triple (some code) = Triple-raise _ (λ d h. inl (inl h.0))

          on_same :
              (old : Config) (b : Bool)
              → Triple K
                  (Ready p)
                  (if b
                    then report F unchanged (F.changes_summary old c)
                    else commit_changed F c (F.changes_summary old c))
                  (λ r d. DoneAs r.classification d)
                  (λ e d. Either d)
          on_same old true = report-Triple unchanged _ (λ d h. h)
          on_same old false = commit_changed-Triple _ valid
