-- ===== src/ConfigManager/Load.antt =====
-- load_config, _try_load and _remove_if_exists: what they return of a disk, under any faults.
use pico_dualcore.Prelude.{
  Bool, true, false, if◌then◌else◌, Option, none, some, ◌≡◌, refl, subst, ap, ◌⊎◌, inl, inr,
  is_some, arith,
}
use pico_dualcore.Storage.{
  FilePath, Trouble, io_error, memory_error, power_cut, Disk, Exn, config_error, trouble, Code,
  file, put_file, pure, remove,
}
use pico_dualcore.Storage.Triple.{
  Triple, Triple-pure, Triple-raise, Triple-bind, Triple-rescue, Stops, ReadFails, read-Triple,
  exists-Triple, remove-Triple, put_file-none,
}
use pico_dualcore.ConfigManager.{
  ConfigFormat, unreadable, raise_code, parsed, load_config, remove_if_exists, invalid, try_load,
}

module _ (F : ConfigFormat) where
  open F use {Text, Config, parse, validate_config}

  abbrev admitted : Option Code → Config → Option Config
  admitted none c = some c
  admitted (some code) c = none

  abbrev checked : Option Config → Option Config
  checked none = none
  checked (some c) = admitted (validate_config c) c

  -- The valid configuration that a file holds, if it is there, parses and validates.
  abbrev pub held : Option Text → Option Config
  held none = none
  held (some t) = checked (parse t)

  -- Why load_config raises: the file holds no valid configuration, or trouble of an allowed kind.
  abbrev pub LoadFails : (Trouble → Type 0) → FilePath → Exn → Disk Text → Type 0
  LoadFails K p (config_error c) d = (held (file p d) ≡ none) ⊎ K io_error
  LoadFails K p (trouble e) d = K e

  -- What _try_load finds: the valid configuration of the file, or `none` where it holds none.
  abbrev pub Found : (Trouble → Type 0) → FilePath → Option Config → Disk Text → Type 0
  Found K p o d = (held (file p d) ≡ o) ⊎ ((o ≡ none) × K io_error)

  module _ {K : Trouble → Type 0} {P : Disk Text → Type 0} where
    raise_code-Triple :
        (p : FilePath) (t : Text) (c : Config) (o : Option Code)
        → parse t ≡ some c
        → validate_config c ≡ o
        → Triple K
            (λ d. P d × (file p d ≡ some t))
            (raise_code F o c)
            (λ c d. P d × (held (file p d) ≡ some c))
            (λ e d. P d × LoadFails K p e d)
    unfolding raise_code
    raise_code-Triple p t c none e v = Triple-pure c (λ d h. (h.0, ground (arith, h.1, e, v)))
    raise_code-Triple p t c (some code) e v =
        Triple-raise _ (λ d h. (h.0, inl (ground (arith, h.1, e, v))))

    parsed-Triple :
        (p : FilePath) (t : Text) (o : Option Config)
        → parse t ≡ o
        → Triple K
            (λ d. P d × (file p d ≡ some t))
            (parsed F o)
            (λ c d. P d × (held (file p d) ≡ some c))
            (λ e d. P d × LoadFails K p e d)
    unfolding parsed
    parsed-Triple p t none e = Triple-raise _ (λ d h. (h.0, inl (ground (arith, h.1, e))))
    parsed-Triple p t (some c) e = raise_code-Triple p t c (validate_config c) e refl

    unreadable-Triple :
        (p : FilePath) (e : Exn)
        → Triple K
            (λ d. P d × ReadFails K p e d)
            (unreadable F e)
            (λ t d. P d × (file p d ≡ some t))
            (λ e d. P d × LoadFails K p e d)
    unfolding unreadable
    unreadable-Triple p (config_error c) = Triple-raise _ (λ d h. absurd h.1)
    unreadable-Triple p (trouble io_error) = Triple-raise _ (λ d h. (h.0, no_file d h.1))
      where
        no_file :
            (d : Disk Text)
            → ReadFails K p (trouble io_error) d
            → (held (file p d) ≡ none) ⊎ K io_error
        no_file d (inl e) = inl (ap held e)
        no_file d (inr k) = inr k
    unreadable-Triple p (trouble memory_error) = Triple-raise _ (λ d h. h)
    unreadable-Triple p (trouble power_cut) = Triple-raise _ (λ d h. h)

    pub load_config-Triple :
        (p : FilePath)
        → Triple K P
            (load_config F p)
            (λ c d. P d × (held (file p d) ≡ some c))
            (λ e d. P d × LoadFails K p e d)
    unfolding load_config
    load_config-Triple p =
        Triple-bind _ _ (Triple-rescue _ _ (read-Triple p) (unreadable-Triple p))
          (λ t. parsed-Triple p t (parse t) refl)

    invalid-Triple :
        (p : FilePath) (e : Exn)
        → Triple K
            (λ d. P d × LoadFails K p e d)
            (invalid F e)
            (λ o d. P d × Found K p o d)
            (λ e d. P d × Stops K e)
    unfolding invalid
    invalid-Triple p (config_error c) = Triple-pure none (λ d h. (h.0, why d h.1))
      where
        why : (d : Disk Text) → LoadFails K p (config_error c) d → Found K p none d
        why d (inl e) = inl e
        why d (inr k) = inr (refl, k)
    invalid-Triple p (trouble e) = Triple-raise _ (λ d h. h)

    pub try_load-Triple :
        (p : FilePath)
        → Triple K P (try_load F p) (λ o d. P d × Found K p o d) (λ e d. P d × Stops K e)
    unfolding try_load
    try_load-Triple p =
        Triple-rescue _ _
          (Triple-bind _ _ (load_config-Triple p)
            (λ c. Triple-pure (some c) (λ d h. (h.0, inl h.1))))
          (invalid-Triple p)

  module _ {K : Trouble → Type 0} {P Q R : Disk Text → Type 0} where
    remove_present :
        (p : FilePath) (b : Bool)
        → ((d : Disk Text) → P d → Q (put_file p none d))
        → ((d : Disk Text) → P d → R d)
        → ((d : Disk Text) → Q d → R d)
        → Triple K
            (λ d. P d × (is_some (file p d) ≡ b))
            (if b then remove p else pure tt)
            (λ _ d. Q d)
            (λ e d. R d × Stops K e)
    remove_present p true hq pr qr =
        remove-Triple p (λ d h. h.1) (λ d h. hq d h.0) (λ d h. pr d h.0) qr
    remove_present p false hq pr qr =
        Triple-pure tt (λ d h. subst Q (put_file-none p d h.1) (hq d h.0))

    pub remove_if_exists-Triple :
        (p : FilePath)
        → ((d : Disk Text) → P d → Q (put_file p none d))
        → ((d : Disk Text) → P d → R d)
        → ((d : Disk Text) → Q d → R d)
        → Triple K P (remove_if_exists F p) (λ _ d. Q d) (λ e d. R d × Stops K e)
    unfolding remove_if_exists
    remove_if_exists-Triple p hq pr qr =
        Triple-bind _ _ (exists-Triple p pr) (λ b. remove_present p b hq pr qr)
