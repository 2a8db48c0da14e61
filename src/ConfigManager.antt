-- ===== src/ConfigManager.antt =====
-- config_manager.py: the write transaction on config.json and the boot recovery, with load_config
-- and _read_json of config.py.
pub mod Load
pub mod Anchor
pub mod Boot
pub mod Commit
pub mod Atomic
pub mod Stale
pub mod Same
pub mod Changes
mod Tests
use pico_dualcore.Prelude.{Bool, true, false, if◌then◌else◌, Option, none, some, ◌≡◌}
use pico_dualcore.Storage.{
  FilePath, config_path, tmp_path, old_path, cleanup_path, Trouble, io_error, memory_error,
  power_cut, Code, unreadable_file, storage_error, Exn, config_error, trouble, Io, pure, raise,
  exists, remove, rename, sync, read, write, ◌>>=◌, ◌>>◌, rescue, World, ok,
}

-- What the manager uses of a configuration: JSON text and values, validate_config of config.py,
-- the equality of dictionaries, and the summary of the changes.
pub record ConfigFormat : Type 1 where
  pub Text : Type 0
  pub Config : Type 0
  pub Changes : Type 0
  -- json.load and the test for an object
  pub parse : Text → Option Config
  -- json.dump
  pub dump : Config → Text
  -- the code of the ConfigError, if one is raised
  pub validate_config : Config → Option Code
  pub same : Config → Config → Bool
  pub changes_summary : Config → Config → Changes
  -- What is dumped is read back.
  pub parse-dump : (c : Config) → parse (dump c) ≡ some c

pub data Classification : Type 0 where
  unchanged needs_reboot : Classification

pub record Written (C : Type 0) : Type 0 where
  pub classification : Classification
  pub changes : C
  pub reboot_required : Bool

module _ (F : ConfigFormat) where
  open F use {Text, Config, Changes, parse, dump, validate_config, same, changes_summary}

  -- `error_type` is ConfigError, whose code load_config sets to `unreadable_file`.
  unreadable : Exn → Io Text Text
  unreadable (trouble io_error) = raise (config_error unreadable_file)
  unreadable e = raise e

  raise_code : {A : Type 0} → Option Code → A → Io Text A
  raise_code none a = pure a
  raise_code (some c) a = raise (config_error c)

  parsed : Option Config → Io Text Config
  parsed none = raise (config_error unreadable_file)
  parsed (some c) = raise_code (validate_config c) c

  pub load_config : FilePath → Io Text Config
  unfolding unreadable parsed raise_code
  load_config path = do text ← rescue (read path) unreadable; parsed (parse text)

  pub remove_if_exists : FilePath → Io Text (Unit {0})
  remove_if_exists path = do present ← exists path; if present then remove path else pure tt

  -- `none` for a present artifact that does not load; its error is kept by the source for the
  -- text of the last message only.
  invalid : Exn → Io Text (Option Config)
  invalid (config_error c) = pure none
  invalid (trouble e) = raise (trouble e)

  pub try_load : FilePath → Io Text (Option Config)
  unfolding invalid load_config
  try_load path = rescue (do c ← load_config path; pure (some c)) invalid

  -- The branches of recover(): each returns `none` where the source falls through to the next.
  release_committed : Config → Io Text (Option Config)
  unfolding remove_if_exists
  release_committed config = do
    remove_if_exists cleanup_path
    remove_if_exists old_path
    remove_if_exists tmp_path
    sync
    pure (some config)

  promote_cleanup : Option Config → Io Text (Option Config)
  unfolding remove_if_exists
  promote_cleanup none = pure none
  promote_cleanup (some config) = do
    remove_if_exists config_path
    rename cleanup_path config_path
    remove_if_exists old_path
    remove_if_exists tmp_path
    sync
    pure (some config)

  committed_or_cleanup : Option Config → Io Text (Option Config)
  unfolding release_committed promote_cleanup try_load
  committed_or_cleanup (some config) = release_committed config
  committed_or_cleanup none = do config ← try_load cleanup_path; promote_cleanup config

  recover_cleanup : Io Text (Option Config)
  unfolding committed_or_cleanup try_load
  recover_cleanup = do
    present ← exists cleanup_path
    if present then (do config ← try_load config_path; committed_or_cleanup config) else pure none

  promote_old : Option Config → Io Text (Option Config)
  unfolding remove_if_exists
  promote_old none = pure none
  promote_old (some config) = do
    remove_if_exists config_path
    rename old_path config_path
    remove_if_exists tmp_path
    sync
    pure (some config)

  recover_old : Io Text (Option Config)
  unfolding promote_old try_load
  recover_old = do
    present ← exists old_path
    if present then (do config ← try_load old_path; promote_old config) else pure none

  keep_config : Option Config → Io Text (Option Config)
  unfolding remove_if_exists
  keep_config none = pure none
  keep_config (some config) = do
    remove_if_exists old_path
    remove_if_exists tmp_path
    sync
    pure (some config)

  recover_config : Io Text (Option Config)
  unfolding keep_config try_load
  recover_config = do
    present ← exists config_path
    if present then (do config ← try_load config_path; keep_config config) else pure none

  promote_tmp : Option Config → Io Text (Option Config)
  unfolding remove_if_exists
  promote_tmp none = pure none
  promote_tmp (some config) = do
    rename tmp_path config_path
    remove_if_exists old_path
    remove_if_exists cleanup_path
    sync
    pure (some config)

  recover_tmp : Io Text (Option Config)
  unfolding promote_tmp try_load
  recover_tmp = do
    present ← exists tmp_path
    if present then (do config ← try_load tmp_path; promote_tmp config) else pure none

  or_else : Option Config → Io Text Config → Io Text Config
  or_else (some config) next = pure config
  or_else none next = next

  -- Both messages of the last two `raise` statements carry the same code.
  unfoldable pub recover : Io Text Config
  unfolding recover_cleanup recover_old recover_config recover_tmp or_else
  recover = do
    by_cleanup ← recover_cleanup
    or_else by_cleanup do
      by_old ← recover_old
      or_else by_old do
        by_config ← recover_config
        or_else by_config
            do by_tmp ← recover_tmp; or_else by_tmp (raise (config_error unreadable_file))

  pub read_persisted : Io Text Config
  read_persisted = load_config config_path

  write_candidate_tmp : Config → Io Text (Unit {0})
  write_candidate_tmp candidate = write tmp_path (dump candidate)

  restore_backup : Option FilePath → Io Text (Unit {0})
  restore_backup none = pure tt
  restore_backup (some backup) = do remove_if_exists config_path; rename backup config_path

  backup_path : Io Text (Option FilePath)
  backup_path = do
    old ← exists old_path
    if old
        then pure (some old_path)
        else do cleanup ← exists cleanup_path; pure (if cleanup then some cleanup_path else none)

  restore_committed : Io Text (Unit {0})
  unfolding restore_backup backup_path remove_if_exists
  restore_committed = do
    backup ← backup_path
    restore_backup backup
    remove_if_exists tmp_path
    sync

  ignore_io : Exn → Io Text (Unit {0})
  ignore_io (trouble io_error) = pure tt
  ignore_io e = raise e

  try_restore : Io Text (Unit {0})
  unfolding restore_committed ignore_io
  try_restore = rescue restore_committed ignore_io

  -- The `except` clauses round the transaction.
  abandon : Exn → Io Text (Unit {0})
  unfolding try_restore
  abandon (trouble io_error) = do try_restore; raise (config_error storage_error)
  abandon (config_error code) = do try_restore; raise (config_error code)
  abandon e = raise e

  -- The body of the `try`: up to the synced rename of .old to .cleanup.
  transaction : Config → Io Text (Unit {0})
  unfolding write_candidate_tmp load_config
  transaction candidate = do
    write_candidate_tmp candidate
    load_config tmp_path
    rename config_path old_path
    rename tmp_path config_path
    sync
    rename old_path cleanup_path
    sync

  -- The removal of .cleanup after the commit; an OSError is a printed warning.
  clean_up : Io Text (Unit {0})
  unfolding remove_if_exists ignore_io
  clean_up = rescue (do remove_if_exists cleanup_path; sync) ignore_io

  report : Classification → Changes → Io Text (Written Changes)
  report classification changes w = (
    ok (record {
      classification = classification;
      changes = changes;
      reboot_required = w.reboot_required;
    }),
    w,
  )

  mark_reboot_required : Io Text (Unit {0})
  mark_reboot_required w = (ok tt, record w { reboot_required = true })

  commit_changed : Config → Changes → Io Text (Written Changes)
  unfolding transaction abandon mark_reboot_required clean_up report
  commit_changed candidate changes = do
    rescue (transaction candidate) abandon
    mark_reboot_required
    clean_up
    report needs_reboot changes

  unfoldable pub begin_write : Config → Io Text (Written Changes)
  unfolding commit_changed raise_code load_config report
  begin_write candidate = do
    raise_code (validate_config candidate) candidate
    persisted ← load_config config_path
    let changes = changes_summary persisted candidate
    if same candidate persisted then report unchanged changes else commit_changed candidate changes
