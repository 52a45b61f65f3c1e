-- ===== src/Tests/Cleanup.antt =====
-- The clean-ups, the types, the policies and the lists at the small registry.
use fusion_index.Prelude.{
  ◌+◌, ℕ, ◌*◌, ◌^◌, ◌≤◌, ◌<◌, ◌≡◌, refl, Bool, true, false, Option, none, some, Text, codes, arith,
  length, keep_if, exists, find, text_eq,
}
use fusion_index.Strconv.{parse_digits, scan, is_digit, positive_in_range}
use fusion_index.Db.{Db, Artifact}
use fusion_index.Db.Artifacts.{find_artifact}
use fusion_index.Db.Versions.{find_version}
use fusion_index.Db.Tags.{carries}
use fusion_index.Db.Cleanup.{has_tag, is_versionless, is_fileless, is_bare}
use fusion_index.Db.Policies.{of_artifact, of_type}
use fusion_index.Db.Filtered.{passes}
use fusion_index.Db.Listed.{ArtifactFilter, by_creation, matches_artifact}
use fusion_index.Retention.{RetentionRule}
use fusion_index.Handlers.Post.{Post}
use fusion_index.Handlers.Params.{path_id, to_bits, parse_older_than}
use fusion_index.Handlers.Admin.{delete_empty, delete_fileless, delete_bare, delete_incomplete}
use fusion_index.Handlers.Admin.Keeps.{Holds, KeepsFiles, clean_ups-KeepsFiles, clean_ups-protected}
use fusion_index.Handlers.Admin.Counts.{Sweeps, clean_ups-answer}
use fusion_index.Handlers.Types.{assign_type, unassign_type}
use fusion_index.Handlers.Types.Assign.{is_assigned, OthersKept, assign_type-Assigned}
use fusion_index.Handlers.Retention.{put_retention_for_artifact, put_retention_for_type}
use fusion_index.Handlers.Retention.Put.{IsInForce, put_retention-IsInForce}
use fusion_index.Handlers.Retention.{one_day}
use fusion_index.Strconv.{ℤ, pos, negsuc, parse_int}
use fusion_index.Handlers.Artifacts.Lists.{ArtifactList, list_filtered}
use fusion_index.Handlers.Artifacts.Lists.Pages.{
  HasTotal, all_matching, browse, list_filtered_complete,
}
use fusion_index.Safety.Admin.{IsSafeAfter, delete_incomplete-IsSafeWorld}
use fusion_index.Tests.Registry.{tables, world, calm_world, artifact_at, foreign, world-IsSafeWorld}

-- Every text is read as one instant.
abbrev at_15 : Text → Option ℕ
at_15 _ = some 15

abbrev stable : Text
stable = codes "stable"

abbrev day : Text
day = codes "2026-01-01T00:00:00Z"

clean_ups-KeepsFiles_example :
    KeepsFiles world (delete_empty at_15 stable day world).1
    × KeepsFiles world (delete_fileless at_15 stable day world).1
    × KeepsFiles world (delete_bare at_15 stable day world).1
clean_ups-KeepsFiles_example = clean_ups-KeepsFiles at_15 stable day world

abbrev second : Artifact
second = artifact_at 51 (codes "b")

second-found : find_artifact 51 tables ≡ some second
unfolding find_artifact find
second-found = refl

second-tagged : has_tag stable tables 51 ≡ true
unfolding has_tag carries exists text_eq
second-tagged = refl

foreign-found : find_version 101 tables ≡ some foreign
unfolding find_version find
foreign-found = refl

clean_ups-protected_example :
    Holds second foreign (delete_empty at_15 stable day world).1.db
    × Holds second foreign (delete_fileless at_15 stable day world).1.db
    × Holds second foreign (delete_bare at_15 stable day world).1.db
clean_ups-protected_example =
    clean_ups-protected at_15 stable day world second foreign second-found second-tagged
      foreign-found refl

day-read : parse_older_than at_15 day ≡ some 15
unfolding parse_older_than
day-read = refl

clean_ups-answer_example :
    Sweeps
      (is_versionless 15 tables)
      (λ a. has_tag stable tables a.id)
      tables.artifacts
      (delete_empty at_15 stable day calm_world).1.db.artifacts
      (delete_empty at_15 stable day calm_world).0
    × Sweeps
        (is_fileless 15 tables)
        (λ a. has_tag stable tables a.id)
        tables.artifacts
        (delete_fileless at_15 stable day calm_world).1.db.artifacts
        (delete_fileless at_15 stable day calm_world).0
    × Sweeps
        (is_bare 15 tables)
        (λ v. has_tag stable tables v.artifact_id)
        tables.versions
        (delete_bare at_15 stable day calm_world).1.db.versions
        (delete_bare at_15 stable day calm_world).0
clean_ups-answer_example = clean_ups-answer at_15 stable day 15 calm_world day-read refl

delete_incomplete-IsSafeWorld_example :
    IsSafeAfter tables (delete_incomplete at_15 stable day world).1
delete_incomplete-IsSafeWorld_example =
    delete_incomplete-IsSafeWorld at_15 stable day world world-IsSafeWorld

one-path_id : path_id (codes "1") ≡ some 1
unfolding path_id parse_int parse_digits scan is_digit positive_in_range to_bits
one-path_id = refl

assign_type-Assigned_example :
    Post
      (λ _ u. (is_assigned 1 1 u.db ≡ true) × OthersKept 1 1 world.db u.db)
      (λ u. OthersKept 1 1 world.db u.db)
      (assign_type (codes "1") (codes "1") world)
    × Post
        (λ _ u. (is_assigned 1 1 u.db ≡ false) × OthersKept 1 1 world.db u.db)
        (λ u. OthersKept 1 1 world.db u.db)
        (unassign_type (codes "1") (codes "1") world)
assign_type-Assigned_example =
    assign_type-Assigned (codes "1") (codes "1") 1 1 world one-path_id one-path_id

abbrev rule : RetentionRule
rule = record { keep_last = some 3; max_age_days = some 30 }

put_retention-IsInForce_example :
    Post
      (λ p u. IsInForce (of_artifact 1) (some rule) p u.db)
      (λ u. u.db.policies ≡ world.db.policies)
      (put_retention_for_artifact (codes "1") (some rule) world)
    × Post
        (λ p u. IsInForce (of_type 1) (some rule) p u.db)
        (λ u. u.db.policies ≡ world.db.policies)
        (put_retention_for_type (codes "1") (some rule) world)
put_retention-IsInForce_example =
    put_retention-IsInForce (codes "1") 1 (some rule) world one-path_id (tt, (tt, (tt, (tt, tt))))

-- Forty days and a half second after the zero time. A time is written as its number, and read up to that one.
abbrev late : ℕ
late = 40 * one_day + 500000000

abbrev number_of : Option ℤ → Option ℕ
number_of none = none
number_of (some (pos n)) = some n
number_of (some (negsuc n)) = none

abbrev read_number : Text → Option ℕ
read_number s = number_of (parse_int (late + 1) s)

abbrev any_artifact : ArtifactFilter
any_artifact = record {
  name_prefix = none;
  tag = none;
  types = none;
  older_than = none;
  min_versions = none;
  max_versions = none;
  has_files = none;
  has_incomplete_files = none;
  missing_tag = none;
  min_total_bytes = none;
  has_retention = none;
}

abbrev listing : ArtifactList
listing = record { filter = any_artifact; sort = by_creation; desc = true }

abbrev no_order : Text → Text → Bool
no_order s t = true

two_fit : length (keep_if (matches_artifact no_order any_artifact tables) tables.artifacts) ≤ 3 * 1
unfolding matches_artifact passes keep_if
two_fit = omega arith

list_filtered_complete_example :
    (browse no_order no_order listing calm_world 1 0 3
      ≡ all_matching no_order no_order listing tables)
    × ((k : ℕ)
        → k * 1 < 2 ^ 31
        → HasTotal
            (length (keep_if (matches_artifact no_order any_artifact tables) tables.artifacts))
            (list_filtered no_order no_order
              (record { page = k; page_size = 1 })
              listing
              calm_world).0)
list_filtered_complete_example =
    list_filtered_complete no_order no_order listing 1 3 calm_world refl (omega arith) (omega arith)
      two_fit
