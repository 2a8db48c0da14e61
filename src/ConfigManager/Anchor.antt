-- ===== src/ConfigManager/Anchor.antt =====
-- Which configuration a disk stands for, in the states between two settled ones.
use pico_dualcore.Prelude.{Option, none, some, ◌≡◌, ◌⊎◌}
use pico_dualcore.Storage.{Disk}
use pico_dualcore.ConfigManager.{ConfigFormat}
use pico_dualcore.ConfigManager.Load.{held}

module _ (F : ConfigFormat) where
  open F use {Text, Config}

  -- The committed file holds `x`, and nothing is left to roll back.
  abbrev pub Committed : Config → Disk Text → Type 0
  Committed x d = (d.old ≡ none) × (held F d.config ≡ some x)

  -- A write was interrupted before its commit point: .old holds `x`.
  abbrev pub Rollback : Config → Disk Text → Type 0
  Rollback x d = (d.cleanup ≡ none) × (held F d.old ≡ some x)

  -- config.json was removed while .cleanup holds `x`.
  abbrev pub Fallback : Config → Disk Text → Type 0
  Fallback x d = (d.old ≡ none) × (d.config ≡ none) × (held F d.cleanup ≡ some x)

  -- The disk stands for `x`.
  abbrev pub Anchored : Config → Disk Text → Type 0
  Anchored x d = Committed x d ⊎ Rollback x d ⊎ Fallback x d

  -- The steady state: one valid config.json.
  abbrev pub Settled : Config → Disk Text → Type 0
  Settled x d = (held F d.config ≡ some x) × (d.old ≡ none) × (d.cleanup ≡ none) × (d.tmp ≡ none)

  module _ (x : Config) where
    -- What a branch of recover() leaves: `x` in the steady state, or the disk for the next one.
    abbrev pub Branch : (Disk Text → Type 0) → Option Config → Disk Text → Type 0
    Branch Next none d = Next d
    Branch Next (some c) d = (c ≡ x) × Settled x d

    -- What recover_cleanup leaves for the next branch.
    abbrev pub Unclean : Disk Text → Type 0
    Unclean d = (d.cleanup ≡ none) × (Committed x d ⊎ Rollback x d)

    pub into :
        (N : Disk Text → Type 0) (a : Option Config) (d : Disk Text)
        → Branch (λ d. ⊥) a d
        → Branch N a d
    into N none d h = absurd h
    into N (some c) d h = h
