-- ===== src/ConfigManager/Boot.antt =====
-- recover() on a disk that an interrupted write or an interrupted recovery left behind.
use pico_dualcore.Prelude.{
  Bool, true, false, if◌then◌else◌, Option, none, some, ◌≡◌, inl, inr, is_some, arith,
}
use pico_dualcore.Storage.{
  FilePath, config_path, tmp_path, old_path, cleanup_path, Trouble, io_error, Disk, Io, file,
  put_file, pure, sync, ◌>>=◌, ◌>>◌,
}
use pico_dualcore.Storage.Triple.{
  Triple, Triple-pure, Triple-bind, Triple-from, Triple-weaken, exists-Triple, rename-Triple,
  sync-Triple, Stops,
}
use pico_dualcore.ConfigManager.{
  ConfigFormat, release_committed, promote_cleanup, committed_or_cleanup, recover_cleanup,
  promote_old, recover_old, remove_if_exists, keep_config, recover_config, or_else, recover,
  try_load,
}
use pico_dualcore.ConfigManager.Anchor.{
  Committed, Rollback, Fallback, Anchored, Settled, Branch, Unclean, into,
}
use pico_dualcore.ConfigManager.Load.{Found, try_load-Triple, remove_if_exists-Triple}

module _ (F : ConfigFormat) where
  open F use {Text, Config}

  module _ {K : Trouble → Type 0} (reads : ¬ K io_error) (x : Config) where
    -- The end of a branch: a last removal, the sync, and the result.
    finish-Triple :
        {P : Disk Text → Type 0} (p : FilePath) (c : Config)
        → c ≡ x
        → ((d : Disk Text) → P d → Settled F x (put_file p none d))
        → ((d : Disk Text) → P d → Anchored F x d)
        → Triple K P
            (do remove_if_exists F p; sync; pure (some c))
            (Branch F x (λ d. ⊥))
            (λ e d. Anchored F x d × Stops K e)
    finish-Triple p c e hq pr =
        Triple-bind _ _
          (remove_if_exists-Triple F {Q = Settled F x} p hq pr (λ d h. inl (h.1, h.0)))
          λ _.
            Triple-bind _ _ (sync-Triple (λ d h. inl (h.1, h.0))) λ _. Triple-pure _ (λ d h. (e, h))

    release_committed-Triple :
        (c : Config)
        → c ≡ x
        → Triple K
            (Committed F x)
            (release_committed F c)
            (Branch F x (λ d. ⊥))
            (λ e d. Anchored F x d × Stops K e)
    unfolding release_committed
    release_committed-Triple c e =
        Triple-bind _ _
          (remove_if_exists-Triple F {Q = λ d. Committed F x d × (d.cleanup ≡ none)} cleanup_path
            (λ d h. ground arith) (λ d h. inl h) (λ d h. inl h.0))
          λ _.
            Triple-bind _ _
              (remove_if_exists-Triple F {Q = λ d. Committed F x d × (d.cleanup ≡ none)} old_path
                (λ d h. ground arith) (λ d h. inl h.0) (λ d h. inl h.0))
              λ _. finish-Triple tmp_path c e (λ d h. ground arith) (λ d h. inl h.0)

    promote_cleanup-Triple :
        (o : Option Config)
        → o ≡ some x
        → Triple K
            (Fallback F x)
            (promote_cleanup F o)
            (Branch F x (λ d. ⊥))
            (λ e d. Anchored F x d × Stops K e)
    unfolding promote_cleanup
    promote_cleanup-Triple none e = absurd (cc)
    promote_cleanup-Triple (some c) e =
        Triple-bind _ _
          (remove_if_exists-Triple F {Q = Fallback F x} config_path (λ d h. ground arith)
            (λ d h. inr (inr h)) (λ d h. inr (inr h)))
          λ _.
            Triple-bind _ _
              (rename-Triple {Q = λ d. Committed F x d × (d.cleanup ≡ none)} cleanup_path
                config_path (λ d h. ground arith) (λ d t h e. ground arith) (λ d h. inr (inr h))
                (λ d h. inl h.0))
              λ _.
                Triple-bind _ _
                  (remove_if_exists-Triple F {Q = λ d. Committed F x d × (d.cleanup ≡ none)}
                    old_path (λ d h. ground arith) (λ d h. inl h.0) (λ d h. inl h.0))
                  λ _. finish-Triple tmp_path c (cc) (λ d h. ground arith) (λ d h. inl h.0)

    promote_old-Triple :
        (o : Option Config)
        → o ≡ some x
        → Triple K
            (Rollback F x)
            (promote_old F o)
            (Branch F x (λ d. ⊥))
            (λ e d. Anchored F x d × Stops K e)
    unfolding promote_old
    promote_old-Triple none e = absurd (cc)
    promote_old-Triple (some c) e =
        Triple-bind _ _
          (remove_if_exists-Triple F {Q = Rollback F x} config_path (λ d h. ground arith)
            (λ d h. inr (inl h)) (λ d h. inr (inl h)))
          λ _.
            Triple-bind _ _
              (rename-Triple {Q = λ d. Committed F x d × (d.cleanup ≡ none)} old_path config_path
                (λ d h. ground arith) (λ d t h e. ground arith) (λ d h. inr (inl h))
                (λ d h. inl h.0))
              λ _. finish-Triple tmp_path c (cc) (λ d h. ground arith) (λ d h. inl h.0)

    keep_config-Triple :
        (o : Option Config)
        → o ≡ some x
        → Triple K
            (λ d. Committed F x d × (d.cleanup ≡ none))
            (keep_config F o)
            (Branch F x (λ d. ⊥))
            (λ e d. Anchored F x d × Stops K e)
    unfolding keep_config
    keep_config-Triple none e = absurd (cc)
    keep_config-Triple (some c) e =
        Triple-bind _ _
          (remove_if_exists-Triple F {Q = λ d. Committed F x d × (d.cleanup ≡ none)} old_path
            (λ d h. ground arith) (λ d h. inl h.0) (λ d h. inl h.0))
          λ _. finish-Triple tmp_path c (cc) (λ d h. ground arith) (λ d h. inl h.0)

    after_config-Triple :
        (o : Option Config)
        → Triple K
            (λ d. (Anchored F x d × (is_some d.cleanup ≡ true)) × Found F K config_path o d)
            (committed_or_cleanup F o)
            (Branch F x (λ d. ⊥))
            (λ e d. Anchored F x d × Stops K e)
    unfolding committed_or_cleanup
    after_config-Triple (some c) =
        Triple-from {E = c ≡ x} _ (λ d h. ground arith)
          λ e.
            Triple-weaken _ (λ d h. ground arith) (λ a d h. h) (λ e d h. h)
              (release_committed-Triple c e)
    after_config-Triple none =
        Triple-bind _ _
          (Triple-weaken {P' = Fallback F x} _ (λ d h. ground arith) (λ a d h. h)
            (λ e d h. (inr (inr h.0), h.1)) (try_load-Triple F cleanup_path))
          λ o.
            Triple-from {E = o ≡ some x} _ (λ d h. ground arith)
              λ e.
                Triple-weaken _ (λ d h. h.0) (λ a d h. h) (λ e d h. h) (promote_cleanup-Triple o e)

    recover_cleanup-Triple :
        Triple K
          (Anchored F x)
          (recover_cleanup F)
          (Branch F x (Unclean F x))
          (λ e d. Anchored F x d × Stops K e)
    unfolding recover_cleanup
    recover_cleanup-Triple = Triple-bind _ _ (exists-Triple cleanup_path (λ d h. h)) on_present
      where
        on_present :
            (b : Bool)
            → Triple K
                (λ d. Anchored F x d × (is_some (file cleanup_path d) ≡ b))
                (if b
                  then (do config ← try_load F config_path; committed_or_cleanup F config)
                  else pure none)
                (Branch F x (Unclean F x))
                (λ e d. Anchored F x d × Stops K e)
        on_present true =
            Triple-bind _ _
              (Triple-weaken _ (λ d h. h) (λ a d h. h) (λ e d h. (h.0.0, h.1))
                (try_load-Triple F config_path))
              λ o.
                Triple-weaken _ (λ d h. h) (into F x (Unclean F x)) (λ e d h. h)
                  (after_config-Triple o)
        on_present false = Triple-pure none (λ d h. ground arith)

    recover_old-Triple :
        Triple K
          (Unclean F x)
          (recover_old F)
          (Branch F x (λ d. Committed F x d × (d.cleanup ≡ none)))
          (λ e d. Anchored F x d × Stops K e)
    unfolding recover_old
    recover_old-Triple = Triple-bind _ _ (exists-Triple old_path (λ d h. ground arith)) on_present
      where
        on_present :
            (b : Bool)
            → Triple K
                (λ d. (Unclean F x) d × (is_some (file old_path d) ≡ b))
                (if b then (do config ← try_load F old_path; promote_old F config) else pure none)
                (Branch F x (λ d. Committed F x d × (d.cleanup ≡ none)))
                (λ e d. Anchored F x d × Stops K e)
        on_present true =
            Triple-bind _ _
              (Triple-weaken {P' = Rollback F x} _ (λ d h. ground arith) (λ a d h. h)
                (λ e d h. (inr (inl h.0), h.1)) (try_load-Triple F old_path))
              λ o.
                Triple-from {E = o ≡ some x} _ (λ d h. ground arith)
                  λ e.
                    Triple-weaken _ (λ d h. h.0) (into F x _) (λ e d h. h) (promote_old-Triple o e)
        on_present false = Triple-pure none (λ d h. ground arith)

    recover_config-Triple :
        Triple K
          (λ d. Committed F x d × (d.cleanup ≡ none))
          (recover_config F)
          (Branch F x (λ d. ⊥))
          (λ e d. Anchored F x d × Stops K e)
    unfolding recover_config
    recover_config-Triple = Triple-bind _ _ (exists-Triple config_path (λ d h. inl h.0)) on_present
      where
        on_present :
            (b : Bool)
            → Triple K
                (λ d. (Committed F x d × (d.cleanup ≡ none)) × (is_some (file config_path d) ≡ b))
                (if b
                  then (do config ← try_load F config_path; keep_config F config)
                  else pure none)
                (Branch F x (λ d. ⊥))
                (λ e d. Anchored F x d × Stops K e)
        on_present true =
            Triple-bind _ _
              (Triple-weaken {P' = λ d. Committed F x d × (d.cleanup ≡ none)} _ (λ d h. h.0)
                (λ a d h. h) (λ e d h. (inl h.0.0, h.1)) (try_load-Triple F config_path))
              λ o.
                Triple-from {E = o ≡ some x} _ (λ d h. ground arith)
                  λ e.
                    Triple-weaken _ (λ d h. h.0) (λ a d h. h) (λ e d h. h) (keep_config-Triple o e)
        on_present false = Triple-from {E = ⊥} _ (λ d h. ground arith) (λ z. absurd z)

    or_else-Triple :
        {N : Disk Text → Type 0} (o : Option Config) (next : Io Text Config)
        → Triple K N next (λ c d. (c ≡ x) × Settled F x d) (λ e d. Anchored F x d × Stops K e)
        → Triple K
            (Branch F x N o)
            (or_else F o next)
            (λ c d. (c ≡ x) × Settled F x d)
            (λ e d. Anchored F x d × Stops K e)
    unfolding or_else
    or_else-Triple none next h = h
    or_else-Triple (some c) next h = Triple-pure c (λ d b. b)

    pub recover-Triple :
        Triple K
          (Anchored F x)
          (recover F)
          (λ c d. (c ≡ x) × Settled F x d)
          (λ e d. Anchored F x d × Stops K e)
    unfolding recover
    recover-Triple = Triple-bind _ _ recover_cleanup-Triple λ a. or_else-Triple a _ (
        Triple-bind _ _ recover_old-Triple λ b. or_else-Triple b _ (
          Triple-bind _ _ recover_config-Triple
            λ c. or_else-Triple c _ (Triple-from {E = ⊥} _ (λ d h. h) (λ z. absurd z))))
