-- ===== src/ConfigManager/Stale.antt =====
-- A .cleanup that a write could not remove, and a later write that is cut off.
use pico_dualcore.Prelude.{true, false, none, some, List, [], ◌∷◌, ◌≡◌, refl}
use pico_dualcore.Storage.{
  io_error, power_cut, Fault, fine, before, after, World, ok, ◌>>=◌, rescue, exists, remove, rename,
  sync, read, write,
}
use pico_dualcore.ConfigManager.{ConfigFormat, Written, needs_reboot, begin_write, recover}
use pico_dualcore.ConfigManager.Atomic.{reset}

module _ (F : ConfigFormat) where
  open F use {Text, Config, dump, parse-dump, validate_config, same}

  -- The removal of .cleanup fails, and in the next write the power after the rename to .old.
  abbrev two_writes : List (Fault Text)
  two_writes =
      fine
      ∷ fine
      ∷ fine
      ∷ fine
      ∷ fine
      ∷ fine
      ∷ fine
      ∷ fine
      ∷ fine
      ∷ before io_error
      ∷ fine
      ∷ fine
      ∷ fine
      ∷ after power_cut
      ∷ []

  abbrev pub provisioned : Config → World Text
  provisioned q = record {
    disk = record { config = some (dump q); tmp = none; old = none; cleanup = none };
    reboot_required = false;
    script = two_writes;
  }

  abbrev leftover : Config → Config → World Text
  leftover q p = record {
    disk = record { config = some (dump p); tmp = none; old = none; cleanup = some (dump q) };
    reboot_required = true;
    script = fine ∷ fine ∷ fine ∷ after power_cut ∷ [];
  }

  abbrev cut_off : Config → Config → Config → World Text
  cut_off q p c = record {
    disk = record {
      config = none;
      tmp = some (dump c);
      old = some (dump p);
      cleanup = some (dump q);
    };
    reboot_required = true;
    script = [];
  }

  abbrev pub committed_write : Config → Config → Written F.Changes
  committed_write q p = record {
    classification = needs_reboot;
    changes = F.changes_summary q p;
    reboot_required = true;
  }

  first_write :
      (q p : Config)
      → validate_config q ≡ none
      → validate_config p ≡ none
      → same p q ≡ false
      → begin_write F p (provisioned q) ≡ (ok (committed_write q p), leftover q p)
  unfolding begin_write exists remove rename sync read write rescue ◌>>=◌
  first_write q p vq vp pq = simp (parse-dump, vq, vp, pq)

  next_write :
      (q p c : Config)
      → validate_config p ≡ none
      → validate_config c ≡ none
      → same c p ≡ false
      → (begin_write F c (leftover q p)).1 ≡ cut_off q p c
  unfolding begin_write exists remove rename sync read write rescue ◌>>=◌
  next_write q p c vp vc cp = simp (parse-dump, vp, vc, cp)

  next_boot :
      (q p c : Config)
      → validate_config q ≡ none
      → (recover F (reset F [] (cut_off q p c))).0 ≡ ok q
  unfolding recover exists remove rename sync read rescue ◌>>=◌
  next_boot q p c vq = simp (parse-dump, vq)

  -- The write of `p` over `q` is reported as committed with a pending reboot, though its .cleanup
  -- stays. If the next write, of `c`, is cut off before its commit, .old holds `p`, and yet the boot
  -- returns `q`, the configuration from before the committed write.
  pub stale_cleanup_wins :
      (q p c : Config)
      → validate_config q ≡ none
      → validate_config p ≡ none
      → validate_config c ≡ none
      → same p q ≡ false
      → same c p ≡ false
      → let (r, w) = begin_write F p (provisioned q) in
        let w' = (begin_write F c w).1 in
        (r ≡ ok (committed_write q p))
        × (w'.disk.old ≡ some (dump p))
        × ((recover F (reset F [] w')).0 ≡ ok q)
  stale_cleanup_wins q p c vq vp vc pq cp =
      rw (first_write q p vq vp pq)
        (rw (next_write q p c vp vc cp) (refl, refl, next_boot q p c vq))
