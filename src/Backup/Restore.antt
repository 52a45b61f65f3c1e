-- ===== src/Backup/Restore.antt =====
-- cmd/server/restore.go. strings.TrimSpace, the object store, gunzip and psql are parameters.
use fusion_index.Prelude.{
  ℕ, zero, suc, Bool, true, false, ◌&&◌, ◌||◌, not, Option, none, some, List, [], ◌∷◌, ◌++◌, Text,
  codes, text_eq, has_prefix, ◌==◌, if◌then◌else◌, length,
}
use mathlib.Core.Option
use fusion_index.Config.{Config}
use fusion_index.Db.{Db}
use fusion_index.Session.{Fate, served, refused, lost}
use fusion_index.Backup.{KeyPage, find_latest_backup_key}

-- An io.Reader: the bytes that it gives, and whether it then ends in an error other than io.EOF.
pub record Reader : Type 0 where
  pub text : Text
  pub broken : Bool

-- The lines that ReadString gives one after another, each with its newline, and the last, which
-- has none.
abbrev pub line_before : ℕ → Text × List Text → Text × List Text
line_before c (line, rest) = (c ∷ line, rest)

abbrev pub new_line : ℕ → Text × List Text → Text × List Text
new_line c (line, rest) = (c ∷ [], line ∷ rest)

unfoldable pub read_lines : Text → Text × List Text
read_lines [] = ([], [])
read_lines (c ∷ s) =
    let rest = read_lines s in if c == 10 then new_line c rest else line_before c rest

unfoldable pub concat : List Text → Text
concat [] = []
concat (line ∷ rest) = line ++ concat rest

unfoldable pub is_dump_preamble : Text → Bool
unfolding text_eq has_prefix
is_dump_preamble stmt =
    text_eq stmt []
    || has_prefix (codes "--") stmt
    || has_prefix (codes "\\restrict ") stmt
    || has_prefix (codes "SET ") stmt
    || has_prefix (codes "SELECT pg_catalog.set_config(") stmt

abbrev pub transaction_timeout_setting : Text
transaction_timeout_setting = codes "SET transaction_timeout = 0;"

module _ (trim_space : Text → Text) where
  abbrev pub is_preamble : Text → Bool
  is_preamble line = is_dump_preamble (trim_space line)

  -- Whether a line of the preamble is kept.
  unfoldable pub is_kept : Text → Bool
  unfolding text_eq
  is_kept line = not (text_eq (trim_space line) transaction_timeout_setting)

  -- What a line of the preamble adds to the head.
  unfoldable pub add_kept : Text → Text → Text
  unfolding is_kept
  add_kept head line = if is_kept line then head ++ line else head

  -- The last line, with io.EOF or the error of the reader.
  unfoldable pub end_lines : Bool → Text → Text → Option Reader
  unfolding is_dump_preamble add_kept
  end_lines true head line = none
  end_lines false head line = some (record {
    text = if is_preamble line then add_kept head line else head ++ line;
    broken = false;
  })

  -- The loop over the lines. What it leaves of the reader follows the head.
  unfoldable pub strip_lines : Bool → Text → Text → List Text → Option Reader
  unfolding end_lines is_dump_preamble add_kept concat
  strip_lines broken head line [] = end_lines broken head line
  strip_lines broken head line (next ∷ rest) = elim (is_preamble line) [
    | true ↦ strip_lines broken (add_kept head line) next rest
    | false ↦ some (record { text = (head ++ line) ++ concat (next ∷ rest); broken = broken })
  ]

  -- stripIncompatibleSettings
  unfoldable pub strip_incompatible_settings : Reader → Option Reader
  unfolding strip_lines read_lines
  strip_incompatible_settings r =
      let (line, rest) = read_lines r.text in strip_lines r.broken [] line rest

-- The answer of CountRegistryArtifacts on a database, which may not have the schema.
pub data Count : Type 0 where
  counted : ℕ → Count
  undefined_table other_error : Count

unfoldable pub count_artifacts : Fate → Option Db → Count
count_artifacts served none = undefined_table
count_artifacts served (some db) = counted (length db.artifacts)
count_artifacts refused target = other_error
count_artifacts (lost n) target = other_error

-- targetHasData
unfoldable pub target_has_data : Count → Option Bool
target_has_data (counted zero) = some false
target_has_data (counted (suc n)) = some true
target_has_data undefined_table = some false
target_has_data other_error = none

-- What the command calls: whether the pool and the S3 client are built, what becomes of the count,
-- the pages of keys under a prefix, the object of a key, gunzip, and psql, with whether it ends
-- without an error.
pub record Services : Type 0 where
  pub has_pool : Bool
  pub has_client : Bool
  pub count_fate : Fate
  pub pages : Text → List KeyPage
  pub get_object : Text → Option Reader
  pub gunzip : Reader → Option Reader
  pub psql : Reader → Option Db → Bool × Option Db

-- DownloadStream
unfoldable pub download_stream : Services → Text → Option Reader
download_stream s key = s.get_object key

module _ (trim_space : Text → Text) (cfg : Config) (env : Text → Text) (s : Services) where
  unfoldable pub key_or_latest : Text → Option Text
  unfolding find_latest_backup_key
  key_or_latest [] = find_latest_backup_key (s.pages cfg.s3_backup_prefix)
  key_or_latest (c ∷ key) = some (c ∷ key)

  -- The key, and the dump that is fed to psql.
  unfoldable pub open_dump : Option Reader
  unfolding key_or_latest download_stream strip_incompatible_settings Option.bind
  open_dump = Option.bind (key_or_latest (env (codes "RESTORE_BACKUP_KEY"))) (λ key.
      Option.bind (download_stream s key)
        (λ raw. Option.bind (s.gunzip raw) (λ gz. strip_incompatible_settings trim_space gz)))

  -- psql on the dump, if there is one.
  unfoldable pub feed_psql : Option Reader → Option Db → Bool × Option Db
  feed_psql none target = (false, target)
  feed_psql (some dump) target = s.psql dump target

  -- From the guard on.
  unfoldable pub restore_over : Option Bool → Option Db → Bool × Option Db
  unfolding open_dump feed_psql text_eq
  restore_over none target = (false, target)
  restore_over (some has_data) target =
      if has_data && not (text_eq (env (codes "RESTORE_FORCE")) (codes "true"))
      then (false, target)
      else if not s.has_client
      then (false, target)
      else feed_psql open_dump target

  -- runRestoreDB: whether it ends without exit status 1, and the database.
  unfoldable pub run_restore_db : Option Db → Bool × Option Db
  unfolding restore_over target_has_data count_artifacts text_eq
  run_restore_db target =
      if not (text_eq cfg.storage_backend (codes "S3"))
      then (false, target)
      else if not s.has_pool
      then (false, target)
      else restore_over (target_has_data (count_artifacts s.count_fate target)) target
