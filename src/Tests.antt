-- ===== src/Tests.antt =====
-- The theorems at a small registry.
pub mod Registry
mod Cleanup
mod Services
mod Restores
mod Lists
mod Backends
mod Serving
mod Recovered
use fusion_index.Prelude.{
  ◌==◌, ℕ, ◌+◌, ◌^◌, ◌≡◌, refl, true, Option, none, some, is_some, [], ◌∷◌, Text, codes, arith, ltb,
  if◌then◌else◌, find, exists, text_eq_refl,
}
use fusion_index.Strconv.{pos, print, parse_int, parse_digits, scan, is_digit, positive_in_range}
use fusion_index.Semver.{Semver, IsInt32, parse, to_text}
use fusion_index.Semver.RoundTrip.{parse-to_text}
use fusion_index.Db.{Db, Artifact, Version, File, available}
use fusion_index.Db.Versions.{find_version, is_protected}
use fusion_index.Db.Files.{find_file}
use fusion_index.Db.Filtered.{VersionFilter, rank, count, newer, semver_lt}
use fusion_index.Db.Keys.{IsKeyed}
use fusion_index.Session.{served, refused, Object, World, find_object}
use fusion_index.Handlers.{file_storage_path}
use fusion_index.Handlers.Params.{
  path_id, to_bits, parse_optional_older_than, parse_optional_bool, parse_optional_int64,
  parse_optional_int32, int32_at_least, to_int32,
}
use fusion_index.Handlers.Params.{parse_pagination, row_limit, row_offset}
use fusion_index.Prelude.{◌*◌}
use fusion_index.Handlers.Params.Bounds.{parse_pagination-print, parse_optional_int32-wraps}
use fusion_index.Handlers.Post.{Post}
use fusion_index.Handlers.Files.{UploadForm, upload}
use fusion_index.Handlers.Bulk.{FilterQuery, parse_version_filter, bulk_delete, is_true}
use fusion_index.Handlers.Transaction.{IsSame, Settled}
use fusion_index.Handlers.Versions.{CreateVersionRequest, create_version}
use fusion_index.Handlers.Versions.Steps.{Done}
use fusion_index.Handlers.Versions.Create.{AllOrNothing, create_version-Adds}
use fusion_index.Handlers.Tags.{put_tag}
use fusion_index.Handlers.Tags.Put.{Points, put_tag-Points}
use fusion_index.Handlers.Artifacts.{delete_artifact}
use fusion_index.Handlers.Artifacts.Atomic.{
  dropped, without_artifact, gone, delete_artifact-Settled,
}
use fusion_index.Safety.Artifacts.{HasArtifacts, delete_artifact-IsSafeWorld}
use fusion_index.Handlers.Bulk.Exact.{Deletes, bulk_delete-Deletes}
use fusion_index.Handlers.Bulk.Spares.{
  Remains, bulk_delete-protected, bulk_delete-newest, bulk_delete-elsewhere,
}
use fusion_index.Safety.{IsFileSafe, IsSafeWorld}
use fusion_index.Safety.Bulk.{bulk_delete-IsSafeWorld}
use fusion_index.Safety.Upload.{IsUploaded, upload-IsPublished}
use fusion_index.Db.{RetentionPolicy}
use fusion_index.Retention.{RetentionRule, merge_retention, expires}
use fusion_index.Retention.Merge.{all_expire, merge_retention-expires}
use fusion_index.Handlers.{next}
use fusion_index.Handlers.Files.{download}
use fusion_index.Safety.Download.{download-IsPublished}
use fusion_index.Tests.Registry.{
  policy, calm_world, uploaded, file-IsPublished, old-found, one_zero, two_zero, two_two,
  two_two-IsInt32, one_zero-IsInt32, version_at, old, new, foreign, path, file, artifact_at, tables,
  object, world, tables-IsKeyed, object_found, file-IsFileSafe, world-IsSafeWorld, no_times, query,
  filter, query-filter,
}

bulk_delete-Deletes_example :
    Deletes none filter
      (codes "protected")
      tables
      (bulk_delete no_times (codes "protected") none (query []) world).1.db
bulk_delete-Deletes_example =
    bulk_delete-Deletes no_times (codes "protected") none (query []) world filter refl
      tables-IsKeyed (query-filter none)

bulk_delete-IsSafeWorld_example :
    IsSafeWorld (bulk_delete no_times (codes "protected") none (query []) world).1
bulk_delete-IsSafeWorld_example =
    bulk_delete-IsSafeWorld no_times (codes "protected") none (query []) world world-IsSafeWorld

tables-HasArtifacts : HasArtifacts tables
unfolding exists
tables-HasArtifacts = (refl, (refl, (refl, tt)))

one-path_id : path_id (codes "1") ≡ some 1
unfolding path_id parse_int parse_digits scan is_digit positive_in_range to_bits
one-path_id = refl

delete_artifact-Settled_example :
    Settled (dropped 1 tables) (gone 1 tables) world (delete_artifact (codes "1") world).1
    × (exists (λ a. a.id == 1) tables.artifacts ≡ true
        → dropped 1 tables ≡ without_artifact 1 tables)
delete_artifact-Settled_example = delete_artifact-Settled (codes "1") 1 world refl one-path_id

delete_artifact-IsSafeWorld_example : IsSafeWorld (delete_artifact (codes "1") world).1
delete_artifact-IsSafeWorld_example =
    delete_artifact-IsSafeWorld (codes "1") 1 world tables-HasArtifacts world-IsSafeWorld
      one-path_id

put_tag-Points_example :
    Post
      (λ t u.
        (raw : Text) × (some (codes "2.0.0") ≡ some raw)
        × Points (codes "1") (codes "latest") raw t u.db)
      (λ u. u.db.versions ≡ tables.versions)
      (put_tag (codes "1") (codes "latest") (some (codes "2.0.0")) world)
put_tag-Points_example = put_tag-Points (codes "1") (codes "latest") (some (codes "2.0.0")) world

abbrev request : CreateVersionRequest
request = record {
  version = to_text two_two;
  config = none;
  tags = codes "latest" ∷ codes "stable" ∷ [];
}

create_version-Adds_example :
    Post
      (λ r u. Done 1 two_two request.tags world r.0 u)
      (AllOrNothing 1 two_two request.tags world)
      (create_version (codes "1") (some request) world)
create_version-Adds_example =
    create_version-Adds (codes "1") 1 request two_two world refl one-path_id
      (parse-to_text two_two two_two-IsInt32)

abbrev form : UploadForm
form = record {
  filename = codes "b.bin";
  content = codes "hello";
  header_type = [];
  content_type = [];
}

upload-IsPublished_example :
    Post
      (IsUploaded (some form))
      IsSafeWorld
      (upload (codes "filesystem") (codes "1") (codes "1.0.0") (some form) world)
upload-IsPublished_example =
    upload-IsPublished (codes "filesystem") (codes "1") (codes "1.0.0") (some form) world
      world-IsSafeWorld (tt, (tt, (tt, (tt, tt))))

foreign-is_protected : is_protected (codes "protected") tables foreign ≡ true
unfolding is_protected exists
foreign-is_protected = refl

foreign-found : find_version 101 tables ≡ some foreign
unfolding find_version find
foreign-found = refl

bulk_delete-protected_example :
    Remains tables (bulk_delete no_times (codes "protected") none (query []) world).1.db foreign
bulk_delete-protected_example =
    bulk_delete-protected no_times (codes "protected") none (query []) world filter foreign refl
      tables-IsKeyed (query-filter none) foreign-found foreign-is_protected

new-found : find_version 51 tables ≡ some new
unfolding find_version find
new-found = refl

new-rank : rank tables new ≡ 1
unfolding rank count newer semver_lt
new-rank = refl

bulk_delete-newest_example :
    Remains tables (bulk_delete no_times (codes "protected") none (query []) world).1.db new
bulk_delete-newest_example =
    bulk_delete-newest no_times (codes "protected") none (query []) world filter new 1 refl
      tables-IsKeyed (query-filter none) refl new-found (omega (arith, new-rank))

bulk_delete-elsewhere_example :
    Remains tables (bulk_delete no_times (codes "protected") (some 1) (query []) world).1.db foreign
bulk_delete-elsewhere_example =
    bulk_delete-elsewhere no_times (codes "protected") (some 1) (query []) world filter foreign 1
      refl refl tables-IsKeyed (query-filter (some 1)) foreign-found (omega arith)

abbrev strict : RetentionPolicy
strict = policy 51 none (some 51) 2 90

abbrev lax : RetentionPolicy
lax = policy 1 none (some 1) 5 30

merge_retention-expires_example :
    (rule : RetentionRule) × (merge_retention (lax ∷ strict ∷ []) ≡ some rule)
    × (expires 6 60 rule.keep_last rule.max_age_days ≡ all_expire 6 60 (lax ∷ strict ∷ []))
merge_retention-expires_example = merge_retention-expires 6 60 lax (strict ∷ [])

parse-to_text_example : parse (to_text one_zero) ≡ some one_zero
parse-to_text_example = parse-to_text one_zero one_zero-IsInt32

parse_optional_int32-wraps_example :
    parse_optional_int32 1 (print (2 ^ 32 + 0)) ≡ some (some (pos 0))
parse_optional_int32-wraps_example = parse_optional_int32-wraps 1 0 (omega arith) (omega arith)

parse_pagination-print_example :
    (row_limit (parse_pagination (print 3) (print 20)) ≡ pos 20)
    × (row_offset (parse_pagination (print 3) (print 20)) ≡ pos (3 * 20))
parse_pagination-print_example =
    parse_pagination-print 3 19 (omega arith) (omega arith) (omega arith)

download-IsPublished_example :
    (download (codes "1") (to_text one_zero) (print 1) calm_world).0 ≡ next (codes "hi")
download-IsPublished_example =
    download-IsPublished uploaded file calm_world (codes "1") (to_text one_zero) 1 one_zero old
      file-IsPublished refl refl one-path_id (parse-to_text one_zero one_zero-IsInt32) old-found
      refl (omega arith)
