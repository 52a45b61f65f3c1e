-- ===== src/Tests/Restores.antt =====
-- The choice of a backup and its restore, at small inputs.
use fusion_index.Prelude.{
  ◌≡◌, ◌⊎◌, refl, true, false, Option, none, some, List, [], ◌∷◌, ◌++◌, Text, codes, has_prefix,
  text_eq, keep_if, not, ◌==◌,
}
use mathlib.Core.Option
use fusion_index.Config.{Config}
use fusion_index.Db.{Db}
use fusion_index.Session.{served}
use fusion_index.Backup.{
  KeyPage, text_less, latest_on, latest_of, found_key, find_latest_backup_key,
}
use fusion_index.Backup.Restore.{
  Reader, concat, Services, read_lines, is_dump_preamble, is_kept, add_kept, end_lines, strip_lines,
  strip_incompatible_settings, transaction_timeout_setting, run_restore_db, restore_over, open_dump,
  feed_psql, key_or_latest, target_has_data, count_artifacts,
}
use fusion_index.Backup.Stripped.{Stripped, lines_of, strip_incompatible_settings-Stripped}
use fusion_index.Backup.Guard.{Restored, run_restore_db-Restored}
use fusion_index.Tests.Registry.{tables}
use fusion_index.Tests.Services.{config}

abbrev older : Text
older = codes "db/20240131T235959Z"

abbrev later : Text
later = codes "db/20240201T000000Z"

abbrev pages : List KeyPage
pages = some (some older ∷ none ∷ []) ∷ some (some later ∷ []) ∷ []

newest : find_latest_backup_key pages ≡ some later
unfolding find_latest_backup_key latest_of latest_on found_key text_less
newest = refl

-- strings.TrimSpace at texts with no white space at their ends but the newline.
abbrev pub chomp : Text → Text
chomp s = keep_if (λ c. not (c == 10)) s

abbrev line : Text → Text
line s = s ++ (10 ∷ [])

abbrev comment : Text
comment = line (codes "-- dump")

abbrev setting : Text
setting = line transaction_timeout_setting

abbrev statement : Text
statement = line (codes "DROP x;")

-- The setting stands in the preamble, and again behind the first statement.
abbrev pub dump : Reader
dump = record { text = comment ++ (setting ++ (statement ++ setting)); broken = false }

stripped_dump :
    strip_incompatible_settings chomp dump
    ≡ some (record { text = comment ++ (statement ++ setting); broken = false })
unfolding strip_incompatible_settings read_lines strip_lines end_lines is_dump_preamble add_kept
    is_kept concat text_eq has_prefix keep_if
stripped_dump = refl

strip_incompatible_settings-Stripped_example :
    ((strip_incompatible_settings chomp dump ≡ none) × (dump.broken ≡ true))
    ⊎ ((r : Reader) × (strip_incompatible_settings chomp dump ≡ some r)
        × (r.broken ≡ dump.broken)
        × Stripped chomp (lines_of dump.text) r.text
        × (dump.text ≡ concat (lines_of dump.text)))
strip_incompatible_settings-Stripped_example = strip_incompatible_settings-Stripped chomp dump

abbrev s3_config : Config
s3_config = record config { storage_backend = codes "S3" }

abbrev pub no_env : Text → Text
no_env name = []

abbrev pub restored : Option Db
restored = some tables

-- psql leaves the tables, whatever it reads.
abbrev services : Services
services = record {
  has_pool = true;
  has_client = true;
  count_fate = served;
  pages = λ prefix. pages;
  get_object = λ key. some dump;
  gunzip = λ raw. some raw;
  psql = λ fed target. (true, restored);
}

psql_runs : run_restore_db chomp s3_config no_env services none ≡ (true, restored)
unfolding run_restore_db restore_over open_dump feed_psql key_or_latest target_has_data
    count_artifacts Option.bind find_latest_backup_key latest_of latest_on found_key text_less
    strip_incompatible_settings read_lines strip_lines end_lines is_dump_preamble add_kept is_kept
    concat text_eq has_prefix keep_if
psql_runs = refl

run_restore_db-Restored_example :
    (run_restore_db chomp s3_config no_env services none ≡ (false, none))
    ⊎ Restored chomp s3_config no_env services none
        (run_restore_db chomp s3_config no_env services none)
run_restore_db-Restored_example = run_restore_db-Restored chomp s3_config no_env services none
