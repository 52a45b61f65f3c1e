-- ===== src/Db/Listed.antt =====
-- ListRegistryArtifactsFiltered and CountRegistryArtifactsFiltered of
-- internal/db/sqlc/registry_artifacts.sql.go. The order of names by the collation of the database,
-- and `full_name ILIKE prefix || '%'`, are parameters. The columns version_count, total_bytes and
-- largest_version_bytes are computed as what migration 000009 says that they hold.
use fusion_index.Prelude.{
  ℕ, ◌+◌, Bool, true, false, ◌&&◌, ◌||◌, not, Option, none, some, List, [], ◌∷◌, length, Text,
  keep_if, exists, text_eq, ltb, leb, ◌==◌, if◌then◌else◌,
}
use fusion_index.Strconv.{ℤ, pos, negsuc}
use fusion_index.Db.{Artifact, Version, ArtifactType, TypeMap, Db, ok, Statement, refers}
use fusion_index.Db.Types.{find_type}
use fusion_index.Db.Versions.{listed}
use fusion_index.Db.Filtered.{passes, same, is_incomplete, total_bytes}
use fusion_index.Db.Cleanup.{has_tag, has_files}
use fusion_index.Db.Pages.{order_by, page_of}

pub record ArtifactFilter : Type 0 where
  pub name_prefix : Option Text
  pub tag : Option Text
  pub types : Option (List Text)
  pub older_than : Option ℕ
  pub min_versions : Option ℤ
  pub max_versions : Option ℤ
  pub has_files : Option Bool
  pub has_incomplete_files : Option Bool
  pub missing_tag : Option Text
  pub min_total_bytes : Option ℕ
  pub has_retention : Option Bool

unfoldable pub version_count : Db → ℕ → ℕ
version_count db artifact_id = length (keep_if (λ v. v.artifact_id == artifact_id) db.versions)

unfoldable pub sum_bytes : Db → ℕ → List Version → ℕ
unfolding total_bytes
sum_bytes db artifact_id [] = 0
sum_bytes db artifact_id (v ∷ vs) =
    (if v.artifact_id == artifact_id then total_bytes v.id db.files else 0)
    + sum_bytes db artifact_id vs

unfoldable pub largest_bytes : Db → ℕ → List Version → ℕ
unfolding total_bytes
largest_bytes db artifact_id [] = 0
largest_bytes db artifact_id (v ∷ vs) =
    let rest = largest_bytes db artifact_id vs in
    let size = if v.artifact_id == artifact_id then total_bytes v.id db.files else 0 in
    if ltb rest size then size else rest

unfoldable pub at_least : ℤ → ℕ → Bool
at_least (pos k) n = leb k n
at_least (negsuc k) n = true

unfoldable pub at_most : ℤ → ℕ → Bool
at_most (pos k) n = leb n k
at_most (negsuc k) n = false

-- A type with one of the names is assigned to the artifact.
unfoldable pub has_type_of : Db → ℕ → List Text → Bool
has_type_of db artifact_id names =
    exists
      (λ m.
        m.artifact_id == artifact_id
        && exists (λ t. t.id == m.type_id && exists (λ n. text_eq n t.name) names) db.types)
      db.type_maps

unfoldable pub has_incomplete : Db → ℕ → Bool
unfolding is_incomplete
has_incomplete db artifact_id =
    exists
      (λ v.
        v.artifact_id == artifact_id
        && exists (λ f. f.version_id == v.id && is_incomplete f.status) db.files)
      db.versions

-- A policy of the artifact, or of one of its types.
unfoldable pub has_policy : Db → ℕ → Bool
unfolding refers
has_policy db artifact_id =
    exists (λ p. refers (λ i. i == artifact_id) p.artifact_id) db.policies
    || exists
        (λ m.
          m.artifact_id == artifact_id
          && exists (λ p. refers (λ i. i == m.type_id) p.type_id) db.policies)
        db.type_maps

-- The WHERE clause that the list and the count share.
unfoldable pub matches_artifact : (Text → Text → Bool) → ArtifactFilter → Db → Artifact → Bool
unfolding passes same version_count sum_bytes at_least at_most has_type_of has_incomplete has_policy
    has_tag has_files
matches_artifact ilike q db a =
    passes (ilike a.full_name) q.name_prefix
    && passes (λ tag. has_tag tag db a.id) q.tag
    && passes (has_type_of db a.id) q.types
    && passes (ltb a.created_at) q.older_than
    && passes (λ n. at_least n (version_count db a.id)) q.min_versions
    && passes (λ n. at_most n (version_count db a.id)) q.max_versions
    && passes (same (has_files db a.id)) q.has_files
    && passes (same (has_incomplete db a.id)) q.has_incomplete_files
    && passes (λ tag. not (has_tag tag db a.id)) q.missing_tag
    && passes (λ n. leb n (sum_bytes db a.id db.versions)) q.min_total_bytes
    && passes (same (has_policy db a.id)) q.has_retention

pub data Sort : Type 0 where
  by_creation by_name by_version_count by_largest_version by_total_size : Sort

-- One key of the order, and what decides where it does not.
unfoldable pub by_key : Bool → ℕ → ℕ → Bool → Bool
by_key desc m n rest = if m == n then rest else if desc then ltb n m else ltb m n

unfoldable pub by_text : (Text → Text → Bool) → Bool → Text → Text → Bool → Bool
by_text name_before desc s t rest =
    if text_eq s t then rest else if desc then name_before t s else name_before s t

unfoldable pub sort_before :
    (Text → Text → Bool) → Sort → Bool → Db → Artifact → Artifact → Bool → Bool
unfolding by_key by_text version_count largest_bytes sum_bytes
sort_before name_before by_creation desc db a b rest = rest
sort_before name_before by_name desc db a b rest =
    by_text name_before desc a.full_name b.full_name rest
sort_before name_before by_version_count desc db a b rest =
    by_key desc (version_count db a.id) (version_count db b.id) rest
sort_before name_before by_largest_version desc db a b rest =
    by_key desc (largest_bytes db a.id db.versions) (largest_bytes db b.id db.versions) rest
sort_before name_before by_total_size desc db a b rest =
    by_key desc (sum_bytes db a.id db.versions) (sum_bytes db b.id db.versions) rest

-- ORDER BY the sort, then created_at, then id
unfoldable pub artifact_before :
    (Text → Text → Bool) → Sort → Bool → Db → Artifact → Artifact → Bool
unfolding sort_before by_key
artifact_before name_before sort desc db a b =
    sort_before name_before sort desc db a b (by_key desc a.created_at b.created_at (leb a.id b.id))

module _ (ilike : Text → Text → Bool) where
  unfoldable pub list_registry_artifacts_filtered :
      (Text → Text → Bool) → ArtifactFilter → Sort → Bool → ℤ → ℤ → Statement (List Artifact)
  unfolding artifact_before matches_artifact
  list_registry_artifacts_filtered name_before q sort desc limit offset now db = (
    page_of limit offset (
        order_by (artifact_before name_before sort desc db)
          (keep_if (matches_artifact ilike q db) db.artifacts)),
    db,
  )

  unfoldable pub count_registry_artifacts_filtered : ArtifactFilter → Statement ℕ
  unfolding matches_artifact
  count_registry_artifacts_filtered q now db =
      (ok (length (keep_if (matches_artifact ilike q db) db.artifacts)), db)

-- The rows of the join of assignments and types, for the artifacts that are listed.
unfoldable pub join_types : Db → List ℕ → List TypeMap → List (ℕ × ArtifactType)
unfolding find_type listed
join_types db ids [] = []
join_types db ids (m ∷ ms) =
    let rest = join_types db ids ms in
    if listed ids m.artifact_id
    then elim (find_type m.type_id db) [ none ↦ rest | some t ↦ (m.artifact_id, t) ∷ rest ]
    else rest

-- ListArtifactTypesByArtifactIDs
unfoldable pub list_artifact_types_by_artifact_ids :
    (Text → Text → Bool) → List ℕ → Statement (List (ℕ × ArtifactType))
unfolding join_types
list_artifact_types_by_artifact_ids name_before ids now db = (
  ok (
      order_by (λ r s. ltb r.0 s.0 || (r.0 == s.0 && name_before r.1.name s.1.name))
        (join_types db ids db.type_maps)),
  db,
)
