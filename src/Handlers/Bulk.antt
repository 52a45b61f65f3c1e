-- ===== src/Handlers/Bulk.antt =====
-- internal/api/handlers/version_bulk.go: the filters of the version lists and the bulk delete.
pub mod Atomic
pub mod Rule
pub mod Calm
pub mod Exact
pub mod Spares
use fusion_index.Prelude.{
  ℕ, zero, suc, ◌+◌, ◌-◌, ◌≡◌, refl, Bool, true, false, ◌&&◌, ◌||◌, not, Option, none, some,
  is_some, List, [], ◌∷◌, ◌++◌, map, length, Text, codes, keep_if, find, exists, text_eq, ltb, leb,
  ◌==◌, if◌then◌else◌,
}
use fusion_index.Semver.{Semver, parse, to_text}
use fusion_index.Db.{DbResult, ok, err, Version, File}
use fusion_index.Db.Versions.{listed, delete_unprotected_versions_by_ids}
use fusion_index.Db.Files.{list_files_by_version_ids}
use fusion_index.Db.Filtered.{VersionFilter, FilteredRow, semver_of, list_versions_filtered}
use fusion_index.Session.{World, run, begin, commit, remove_all}
use fusion_index.Handlers.{
  Step, next, failed, Handler, ◌>>=◌, ◌>>◌, pure, fail, require, do_always, ◌or◌, internal_error,
  deferring_rollback, file_object_path,
}
use fusion_index.Handlers.Params.{
  parse_optional_int32, parse_optional_int64, parse_optional_bool, parse_optional_older_than,
}

-- The query parameters of a request, absent ones empty.
pub record FilterQuery : Type 0 where
  pub keep_last : Text
  pub older_than : Text
  pub from : Text
  pub below : Text
  pub versions : List Text
  pub has_files : Text
  pub has_incomplete_files : Text
  pub min_bytes : Text
  pub max_bytes : Text
  pub dry_run : Text

infixl 5 ◌>>=?◌
abbrev ◌>>=?◌ : {A B : Type 0} → Option A → (A → Option B) → Option B
none >>=? f = none
some a >>=? f = f a

unfoldable pub given_semver : Option Semver → Option (Option Semver)
given_semver none = none
given_semver (some sv) = some (some sv)

unfoldable pub optional_semver : Text → Option (Option Semver)
unfolding given_semver
optional_semver [] = some none
optional_semver (c ∷ s) = given_semver (parse (c ∷ s))

-- Each requested version, normalised.
unfoldable pub normalise_all : List Text → Option (List Text)
normalise_all [] = some []
normalise_all (raw ∷ raws) =
    parse raw >>=? λ sv. normalise_all raws >>=? λ rest. some (to_text sv ∷ rest)

unfoldable pub optional_versions : Bool → List Text → Option (Option (List Text))
unfolding normalise_all
optional_versions per_artifact [] = some none
optional_versions per_artifact (raw ∷ raws) =
    if per_artifact
    then (normalise_all (raw ∷ raws) >>=? λ versions. some (some versions))
    else none

-- parseVersionFilter, over the reading of RFC 3339 times
unfoldable pub parse_version_filter : (Text → Option ℕ) → Bool → FilterQuery → Option VersionFilter
unfolding optional_semver optional_versions
parse_version_filter parse_time per_artifact q =
    parse_optional_int32 1 q.keep_last >>=? λ keep_last.
    parse_optional_older_than parse_time q.older_than >>=? λ older_than.
    optional_semver q.from >>=? λ from. optional_semver q.below >>=? λ below.
    optional_versions per_artifact q.versions >>=? λ versions.
    parse_optional_bool q.has_files >>=? λ has_files.
    parse_optional_bool q.has_incomplete_files >>=? λ has_incomplete_files.
    parse_optional_int64 q.min_bytes >>=? λ min_bytes.
    parse_optional_int64 q.max_bytes >>=? λ max_bytes. some (record {
      keep_last = keep_last;
      older_than = older_than;
      from = from;
      below = below;
      versions = versions;
      has_files = has_files;
      has_incomplete_files = has_incomplete_files;
      min_bytes = min_bytes;
      max_bytes = max_bytes;
    })

-- anySet
unfoldable pub any_set : VersionFilter → Bool
any_set p =
    is_some p.keep_last
    || is_some p.older_than
    || is_some p.from
    || is_some p.below
    || is_some p.versions
    || is_some p.has_files
    || is_some p.has_incomplete_files
    || is_some p.min_bytes
    || is_some p.max_bytes

pub record VersionRef : Type 0 where
  pub artifact_id : ℕ
  pub version : Text

pub record BulkVersionDeleteResponse : Type 0 where
  pub deleted : ℕ
  pub skipped : ℕ
  pub dry_run : Bool
  pub versions : List VersionRef

unfoldable pub version_ref : FilteredRow → VersionRef
version_ref r = record {
  artifact_id = r.version.artifact_id;
  version = to_text (semver_of r.version);
}

-- bulkVersionDeleteResponse
unfoldable pub bulk_version_delete_response :
    List FilteredRow → List ℕ → ℕ → Bool → BulkVersionDeleteResponse
unfolding version_ref listed
bulk_version_delete_response rows ids skipped dry_run =
    let versions = map version_ref (keep_if (λ r. listed ids r.version.id) rows) in
    record { deleted = length versions; skipped = skipped; dry_run = dry_run; versions = versions }

-- The rows that are not protected.
unfoldable pub candidates : List FilteredRow → List FilteredRow
candidates rows = keep_if (λ r. not r.protected) rows

unfoldable pub ids_of : List FilteredRow → List ℕ
ids_of rows = map (λ r. r.version.id) rows

-- candidates[id]: the zero row where the map has no entry.
unfoldable pub path_at : Option FilteredRow → File → Text
path_at none f = file_object_path f 0 (record { major = 0; minor = 0; patch = 0 })
path_at (some r) f = file_object_path f r.version.artifact_id (semver_of r.version)

unfoldable pub path_of : List FilteredRow → File → Text
unfolding path_at
path_of rows f = path_at (find (λ r. r.version.id == f.version_id) rows) f

-- The objects of the files whose version the statement deleted.
unfoldable pub doomed_paths : List FilteredRow → List ℕ → List File → List Text
unfolding path_of listed
doomed_paths rows deleted files =
    map (path_of rows) (keep_if (λ f. listed deleted f.version_id) files)

pub record Purged : Type 0 where
  pub files : List File
  pub deleted_ids : List ℕ

-- The statements of the transaction.
unfoldable pub purge_rows : Text → List ℕ → Handler Purged
purge_rows protected_tag ids = do
  files ← run (list_files_by_version_ids ids) or internal_error
  deleted_ids ← run (delete_unprotected_versions_by_ids ids protected_tag) or internal_error
  commit or internal_error
  pure (record { files = files; deleted_ids = deleted_ids })

-- Rows first, objects after the commit.
unfoldable pub purge_all : Text → List FilteredRow → Handler (List ℕ)
purge_all protected_tag cands = do
  done ← purge_rows protected_tag (ids_of cands)
  do_always (remove_all (doomed_paths cands done.deleted_ids done.files))
  pure done.deleted_ids

unfoldable pub purge : Text → List FilteredRow → Handler (List ℕ)
purge protected_tag cands = do
  begin or internal_error
  deferring_rollback (purge_all protected_tag cands)

unfoldable pub is_true : Text → Bool
is_true s = text_eq s (codes "true")

unfoldable pub is_empty : {A : Type 0} → List A → Bool
is_empty [] = true
is_empty (x ∷ xs) = false

-- The rows that a filter matched and protection keeps.
unfoldable pub skipped_count : List FilteredRow → ℕ
skipped_count rows = length rows - length (ids_of (candidates rows))

-- Versions tagged between the listing and the delete count as skipped too.
unfoldable pub deletion_response : List FilteredRow → List ℕ → BulkVersionDeleteResponse
unfolding skipped_count
deletion_response rows deleted =
    bulk_version_delete_response rows deleted
      (skipped_count rows + (length (ids_of (candidates rows)) - length deleted)) false

-- The delete of the rows that were listed.
unfoldable pub delete_rows : Text → Bool → List FilteredRow → Handler BulkVersionDeleteResponse
unfolding skipped_count
delete_rows protected_tag dry_run rows =
    let ids = ids_of (candidates rows) in
    if dry_run || is_empty ids
    then pure (bulk_version_delete_response rows ids (skipped_count rows) dry_run)
    else do deleted ← purge protected_tag (candidates rows); pure (deletion_response rows deleted)

-- The part after the filters are parsed; at least one is required.
unfoldable pub filtered :
    Text → Option ℕ → FilterQuery → VersionFilter → Handler BulkVersionDeleteResponse
filtered protected_tag artifact_id q params =
    if any_set params
    then (do
      rows ← run (list_versions_filtered artifact_id params protected_tag false) or internal_error
      delete_rows protected_tag (is_true q.dry_run) rows)
    else fail 400

-- bulkDelete; without an artifact id it spans every artifact.
unfoldable pub bulk_delete :
    (Text → Option ℕ) → Text → Option ℕ → FilterQuery → Handler BulkVersionDeleteResponse
bulk_delete parse_time protected_tag artifact_id q = do
  params ← require 400 (parse_version_filter parse_time (is_some artifact_id) q)
  filtered protected_tag artifact_id q params
