-- ===== src/Storage.antt =====
-- The file operations that config_manager.py uses (os.stat, os.remove, os.rename, os.sync, open
-- for reading and for writing) on the four names config.json, .tmp, .old and .cleanup, with a
-- fault at any of them. The flash file system is not part of the repository: what is used of it
-- is that operations take effect in program order, and that one that fails took effect whole or
-- not at all, but for a write, which may leave any text behind.
pub mod Triple
use pico_dualcore.Prelude.{Bool, Option, none, some, List, [], ◌∷◌, is_some}

-- The names under one configured path, by suffix.
pub data FilePath : Type 0 where
  config_path tmp_path old_path cleanup_path : FilePath

-- Why an operation did not return. A power cut is no exception of the program: no handler sees it.
pub data Trouble : Type 0 where
  io_error memory_error power_cut : Trouble

-- What befalls one operation: nothing, trouble before or after it took effect, or, in a write,
-- trouble after some text was left in the file.
pub data Fault (T : Type 0) : Type 0 where
  fine : Fault T
  before : Trouble → Fault T
  after : Trouble → Fault T
  torn : T → Trouble → Fault T

pub record Disk (T : Type 0) : Type 0 where
  pub config : Option T
  pub tmp : Option T
  pub old : Option T
  pub cleanup : Option T

-- The files, the one field of ConfigManager that changes, and what will befall the operations to
-- come; past the script's end all of them are fine.
pub record World (T : Type 0) : Type 0 where
  pub disk : Disk T
  pub reboot_required : Bool
  pub script : List (Fault T)

-- The codes of ConfigError, and the other exceptions.
pub data Code : Type 0 where
  unreadable_file storage_error : Code
  unknown_config_fields missing_key invalid_value invalid_config_schema_version
        unsupported_device_type :
      Code

pub data Exn : Type 0 where
  config_error : Code → Exn
  trouble : Trouble → Exn

pub data Result {ℓ} (A : Type ℓ) : Type ℓ where
  ok : A → Result A
  err : Exn → Result A

abbrev pub Io : Type 0 → Type 0 → Type 0
Io T A = World T → Result A × World T

module _ {T : Type 0} where
  abbrev pub file : FilePath → Disk T → Option T
  file config_path d = d.config
  file tmp_path d = d.tmp
  file old_path d = d.old
  file cleanup_path d = d.cleanup

  abbrev pub put_file : FilePath → Option T → Disk T → Disk T
  put_file config_path o d = record d { config = o }
  put_file tmp_path o d = record d { tmp = o }
  put_file old_path o d = record d { old = o }
  put_file cleanup_path o d = record d { cleanup = o }

  module _ {A : Type 0} where
    pub pure : A → Io T A
    pure a w = (ok a, w)

    pub raise : Exn → Io T A
    raise e w = (err e, w)

  -- What one operation comes to: `r` and the disk `d'` unless a fault befalls it.
  pub befall :
      {A : Type 0} → List (Fault T) → (T → Disk T) → Disk T → Result A → Disk T → Result A × Disk T
  befall [] leave d r d' = (r, d')
  befall (fine ∷ _) leave d r d' = (r, d')
  befall (before e ∷ _) leave d r d' = (err (trouble e), d)
  befall (after e ∷ _) leave d r d' = (err (trouble e), d')
  befall (torn t e ∷ _) leave d r d' = (err (trouble e), leave t)

  pub rest : List (Fault T) → List (Fault T)
  rest [] = []
  rest (_ ∷ xs) = xs

  -- An operation on the files: it takes the next fault of the script.
  unfoldable pub act : {A : Type 0} → (T → Disk T → Disk T) → (Disk T → Result A × Disk T) → Io T A
  unfolding befall rest
  act leave f w =
      let (r, d') = f w.disk in
      let (r', d'') = befall w.script (λ t. leave t w.disk) w.disk r d' in
      (r', record w { disk = d''; script = rest w.script })

  abbrev whole : T → Disk T → Disk T
  whole t d = d

  -- os.stat, as far as it tells whether the file is there.
  unfoldable pub exists : FilePath → Io T Bool
  unfolding act
  exists p = act whole (λ d. (ok (is_some (file p d)), d))

  abbrev removed : FilePath → Disk T → Option T → Result (Unit {0}) × Disk T
  removed p d none = (err (trouble io_error), d)
  removed p d (some t) = (ok tt, put_file p none d)

  unfoldable pub remove : FilePath → Io T (Unit {0})
  unfolding act
  remove p = act whole (λ d. removed p d (file p d))

  abbrev renamed : FilePath → FilePath → Disk T → Option T → Result (Unit {0}) × Disk T
  renamed p q d none = (err (trouble io_error), d)
  renamed p q d (some t) = (ok tt, put_file q (some t) (put_file p none d))

  -- The destination is replaced.
  unfoldable pub rename : FilePath → FilePath → Io T (Unit {0})
  unfolding act
  rename p q = act whole (λ d. renamed p q d (file p d))

  unfoldable pub sync : Io T (Unit {0})
  unfolding act
  sync = act whole (λ d. (ok tt, d))

  abbrev contents : Option T → Result T
  contents none = err (trouble io_error)
  contents (some t) = ok t

  unfoldable pub read : FilePath → Io T T
  unfolding act
  read p = act whole (λ d. (contents (file p d), d))

  -- Opening for writing, the text, and closing.
  unfoldable pub write : FilePath → T → Io T (Unit {0})
  unfolding act
  write p t = act (λ u d. put_file p (some u) d) (λ d. (ok tt, put_file p (some t) d))

module _ {T A B : Type 0} where
  abbrev continue : Result A → (A → Io T B) → Io T B
  continue (ok a) f w = f a w
  continue (err e) f w = (err e, w)

  infixl 10 ◌>>=◌ ◌>>◌
  unfoldable pub ◌>>=◌ : Io T A → (A → Io T B) → Io T B
  unfolding pure raise
  ◌>>=◌ m f w = let (r, w') = m w in continue r f w'

  abbrev pub ◌>>◌ : Io T A → Io T B → Io T B
  m >> n = m >>= λ _. n

module _ {T A : Type 0} where
  abbrev handle : Result A → (Exn → Io T A) → Io T A
  handle (ok a) h w = (ok a, w)
  handle (err e) h w = h e w

  -- `try: m` with its `except` clauses; the handler raises again what it does not catch.
  unfoldable pub rescue : Io T A → (Exn → Io T A) → Io T A
  unfolding pure raise
  rescue m h w = let (r, w') = m w in handle r h w'
