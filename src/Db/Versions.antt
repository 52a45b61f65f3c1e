-- ===== src/Db/Versions.antt =====
-- internal/db/sqlc/registry_versions.sql.go: the statements on single versions, and the delete
-- that checks protection again.
use fusion_index.Prelude.{
  ℕ, ◌+◌, Bool, ◌&&◌, ◌||◌, not, Option, List, ◌∷◌, map, Text, keep_if, find, exists, text_eq, ◌==◌,
  if◌then◌else◌,
}
use fusion_index.Db.{
  Version, Db, unique_violation, foreign_key_violation, ok, err, Statement, one_row, increment,
  delete_versions,
}
use fusion_index.Semver.{Semver}

unfoldable pub next_version : Db → Db
next_version db = record db {
  sequences = record (db.sequences) { version = db.sequences.version + increment };
}

unfoldable pub at_semver : ℕ → Semver → Version → Bool
at_semver artifact_id sv v =
    v.artifact_id == artifact_id
    && v.major == sv.major
    && v.minor == sv.minor
    && v.patch == sv.patch

-- The unique index is checked as the row goes in, the foreign key at the statement's end.
unfoldable pub create_artifact_version : ℕ → Semver → Option Text → Statement Version
unfolding next_version at_semver
create_artifact_version artifact_id sv config now db =
    if exists (at_semver artifact_id sv) db.versions
    then (err unique_violation, next_version db)
    else if not (exists (λ a. a.id == artifact_id) db.artifacts)
    then (err foreign_key_violation, next_version db)
    else (let row : Version = record {
      id = db.sequences.version;
      artifact_id = artifact_id;
      major = sv.major;
      minor = sv.minor;
      patch = sv.patch;
      config = config;
      created_at = now;
    } in
        (ok row, record (next_version db) { versions = row ∷ db.versions }))

unfoldable pub find_version : ℕ → Db → Option Version
find_version id db = find (λ v. v.id == id) db.versions

unfoldable pub get_artifact_version : ℕ → Semver → Statement Version
unfolding at_semver one_row
get_artifact_version artifact_id sv now db =
    (one_row (find (at_semver artifact_id sv) db.versions), db)

unfoldable pub delete_artifact_version : ℕ → Statement (Unit {0})
unfolding delete_versions
delete_artifact_version id now db = (ok tt, delete_versions (λ v. v.id == id) db)

-- A tag points at the version, or its artifact carries the protection tag.
unfoldable pub is_protected : Text → Db → Version → Bool
is_protected protected_tag db v =
    exists (λ t. t.version_id == v.id) db.tags
    || exists (λ t. t.artifact_id == v.artifact_id && text_eq t.tag protected_tag) db.tags

-- id = ANY(ids)
unfoldable pub listed : List ℕ → ℕ → Bool
listed ids id = exists (λ i. i == id) ids

unfoldable pub is_deleted : List ℕ → Text → Db → Version → Bool
unfolding is_protected listed
is_deleted ids protected_tag db v = listed ids v.id && not (is_protected protected_tag db v)

-- DeleteUnprotectedVersionsByIDs: the ids of the rows that it removes.
unfoldable pub delete_unprotected_versions_by_ids : List ℕ → Text → Statement (List ℕ)
unfolding is_deleted delete_versions
delete_unprotected_versions_by_ids ids protected_tag now db = (
  ok (map (λ v. v.id) (keep_if (is_deleted ids protected_tag db) db.versions)),
  delete_versions (is_deleted ids protected_tag db) db,
)

unfoldable pub get_artifact_version_by_id : ℕ → Statement Version
unfolding find_version one_row
get_artifact_version_by_id id now db = (one_row (find_version id db), db)
