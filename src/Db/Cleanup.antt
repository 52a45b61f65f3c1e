-- ===== src/Db/Cleanup.antt =====
-- The statements of the admin clean-ups, in internal/db/sqlc/registry_artifacts.sql.go,
-- registry_versions.sql.go and registry_files.sql.go. Rows of one instant, which the database may
-- list in any order, are listed as they stand.
use fusion_index.Prelude.{
  ℕ, Bool, ◌&&◌, not, List, map, length, Text, codes, keep_if, exists, text_eq, ltb, leb, ◌==◌,
}
use fusion_index.Strconv.{ℤ}
use fusion_index.Semver.{Semver}
use fusion_index.Db.{Artifact, Version, File, Db, ok, Statement, delete_versions, delete_artifacts}
use fusion_index.Db.Tags.{carries}
use fusion_index.Db.Files.{join_version}
use fusion_index.Db.Filtered.{is_incomplete, semver_of}
use fusion_index.Db.Pages.{order_by, page_of}

-- Whether an artifact carries the tag.
unfoldable pub has_tag : Text → Db → ℕ → Bool
unfolding carries
has_tag tag db artifact_id = exists (carries artifact_id tag) db.tags

unfoldable pub has_versions : Db → ℕ → Bool
has_versions db artifact_id = exists (λ v. v.artifact_id == artifact_id) db.versions

unfoldable pub version_has_files : Db → ℕ → Bool
version_has_files db version_id = exists (λ f. f.version_id == version_id) db.files

unfoldable pub has_files : Db → ℕ → Bool
unfolding version_has_files
has_files db artifact_id =
    exists (λ v. v.artifact_id == artifact_id && version_has_files db v.id) db.versions

-- The artifacts without versions, those with versions but no file, and the versions without files.
unfoldable pub is_versionless : ℕ → Db → Artifact → Bool
unfolding has_versions
is_versionless before db a = ltb a.created_at before && not (has_versions db a.id)

unfoldable pub is_fileless : ℕ → Db → Artifact → Bool
unfolding has_versions has_files
is_fileless before db a = ltb a.created_at before && has_versions db a.id && not (has_files db a.id)

unfoldable pub is_bare : ℕ → Db → Version → Bool
unfolding version_has_files
is_bare before db v = ltb v.created_at before && not (version_has_files db v.id)

unfoldable pub is_stale : ℕ → File → Bool
unfolding is_incomplete
is_stale before f = is_incomplete f.status && ltb f.created_at before

-- ORDER BY created_at DESC
unfoldable pub artifact_newer : Artifact → Artifact → Bool
artifact_newer a b = leb b.created_at a.created_at

unfoldable pub version_newer : Version → Version → Bool
version_newer v u = leb u.created_at v.created_at

unfoldable pub count_empty_artifacts : ℕ → Statement ℕ
unfolding is_versionless
count_empty_artifacts before now db =
    (ok (length (keep_if (is_versionless before db) db.artifacts)), db)

unfoldable pub list_empty_artifacts : ℕ → ℤ → ℤ → Statement (List Artifact)
unfolding is_versionless artifact_newer
list_empty_artifacts before limit offset now db = (
  page_of limit offset (order_by artifact_newer (keep_if (is_versionless before db) db.artifacts)),
  db,
)

-- A delete counts the rows that it removes; the protection tag spares an artifact.
unfoldable pub drops_versionless : ℕ → Text → Db → Artifact → Bool
unfolding is_versionless has_tag
drops_versionless before tag db a = is_versionless before db a && not (has_tag tag db a.id)

unfoldable pub delete_empty_artifacts : ℕ → Text → Statement ℕ
unfolding drops_versionless delete_artifacts
delete_empty_artifacts before tag now db = (
  ok (length (keep_if (drops_versionless before tag db) db.artifacts)),
  delete_artifacts (drops_versionless before tag db) db,
)

unfoldable pub count_artifacts_without_files : ℕ → Statement ℕ
unfolding is_fileless
count_artifacts_without_files before now db =
    (ok (length (keep_if (is_fileless before db) db.artifacts)), db)

unfoldable pub list_artifacts_without_files : ℕ → ℤ → ℤ → Statement (List Artifact)
unfolding is_fileless artifact_newer
list_artifacts_without_files before limit offset now db = (
  page_of limit offset (order_by artifact_newer (keep_if (is_fileless before db) db.artifacts)),
  db,
)

unfoldable pub drops_fileless : ℕ → Text → Db → Artifact → Bool
unfolding is_fileless has_tag
drops_fileless before tag db a = is_fileless before db a && not (has_tag tag db a.id)

unfoldable pub delete_artifacts_without_files : ℕ → Text → Statement ℕ
unfolding drops_fileless delete_artifacts
delete_artifacts_without_files before tag now db = (
  ok (length (keep_if (drops_fileless before tag db) db.artifacts)),
  delete_artifacts (drops_fileless before tag db) db,
)

unfoldable pub count_versions_without_files : ℕ → Statement ℕ
unfolding is_bare
count_versions_without_files before now db =
    (ok (length (keep_if (is_bare before db) db.versions)), db)

unfoldable pub list_versions_without_files : ℕ → ℤ → ℤ → Statement (List Version)
unfolding is_bare version_newer
list_versions_without_files before limit offset now db =
    (page_of limit offset (order_by version_newer (keep_if (is_bare before db) db.versions)), db)

unfoldable pub drops_bare : ℕ → Text → Db → Version → Bool
unfolding is_bare has_tag
drops_bare before tag db v = is_bare before db v && not (has_tag tag db v.artifact_id)

unfoldable pub delete_versions_without_files : ℕ → Text → Statement ℕ
unfolding drops_bare delete_versions
delete_versions_without_files before tag now db = (
  ok (length (keep_if (drops_bare before tag db) db.versions)),
  delete_versions (drops_bare before tag db) db,
)

unfoldable pub count_incomplete_files : ℕ → Statement ℕ
unfolding is_stale
count_incomplete_files before now db = (ok (length (keep_if (is_stale before) db.files)), db)

-- ORDER BY f.id
unfoldable pub by_file_id : File × Version → File × Version → Bool
by_file_id a b = leb a.0.id b.0.id

unfoldable pub list_incomplete_files : ℕ → ℤ → ℤ → Statement (List (File × Version))
unfolding is_stale join_version by_file_id
list_incomplete_files before limit offset now db = (
  page_of limit offset (order_by by_file_id (join_version db (keep_if (is_stale before) db.files))),
  db,
)

-- A file is spared if the artifact of its version carries the protection tag.
unfoldable pub drops_file : ℕ → Text → Db → File → Bool
unfolding is_stale has_tag
drops_file before tag db f =
    is_stale before f
    && not (exists (λ v. v.id == f.version_id && has_tag tag db v.artifact_id) db.versions)

-- A row of the answer: the coordinates from which the path is rebuilt.
pub record IncompleteFile : Type 0 where
  pub id : ℕ
  pub name : Text
  pub artifact_id : ℕ
  pub semver : Semver

unfoldable pub to_incomplete : File × Version → IncompleteFile
to_incomplete (f, v) = record {
  id = f.id;
  name = f.name;
  artifact_id = v.artifact_id;
  semver = semver_of v;
}

unfoldable pub delete_incomplete_files : ℕ → Text → Statement (List IncompleteFile)
unfolding drops_file join_version to_incomplete
delete_incomplete_files before tag now db = (
  ok (map to_incomplete (join_version db (keep_if (drops_file before tag db) db.files))),
  record db { files = keep_if (λ f. not (drops_file before tag db f)) db.files },
)

-- ORDER BY id
unfoldable pub file_id_before : File → File → Bool
file_id_before f g = leb f.id g.id

unfoldable pub is_in_s3 : File → Bool
is_in_s3 f = text_eq f.storage_backend (codes "S3") && not (is_incomplete f.status)

unfoldable pub list_available_s3_file_paths : Statement (List Text)
unfolding is_in_s3 file_id_before
list_available_s3_file_paths now db =
    (ok (map (λ f. f.storage_path) (order_by file_id_before (keep_if is_in_s3 db.files))), db)
