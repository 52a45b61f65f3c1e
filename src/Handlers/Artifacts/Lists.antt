-- ===== src/Handlers/Artifacts/Lists.antt =====
-- internal/api/handlers/artifacts.go: the list with its filters and its order, and the reads and the
-- update of one artifact with its types.
pub mod Pages
use fusion_index.Prelude.{
  ℕ, Bool, true, false, not, Option, none, some, List, [], ◌∷◌, map, Text, codes, keep_if, text_eq,
  ◌==◌, if◌then◌else◌,
}
use fusion_index.Db.{DbResult, ok, err, Artifact, ArtifactType}
use fusion_index.Db.Artifacts.{get_registry_artifact, update_registry_artifact}
use fusion_index.Db.Types.{list_artifact_types_by_artifact_id}
use fusion_index.Db.Listed.{
  ArtifactFilter, Sort, by_creation, by_name, by_version_count, by_largest_version, by_total_size,
  list_registry_artifacts_filtered, count_registry_artifacts_filtered,
  list_artifact_types_by_artifact_ids,
}
use fusion_index.Session.{World, run}
use fusion_index.Handlers.{
  next, Handler, ◌>>=◌, ◌>>◌, pure, require, ◌or◌, internal_error, not_found_or_internal,
}
use fusion_index.Handlers.Params.{
  Page, path_id, parse_pagination, row_limit, row_offset, parse_optional_int32,
  parse_optional_int64, parse_optional_bool, parse_optional_older_than,
}
use fusion_index.Handlers.Admin.{PageResponse}

-- The query parameters of a list, absent ones empty.
pub record ListQuery : Type 0 where
  pub name : Text
  pub tag : Text
  pub types : List Text
  pub older_than : Text
  pub min_versions : Text
  pub max_versions : Text
  pub has_files : Text
  pub has_incomplete_files : Text
  pub missing_tag : Text
  pub min_total_bytes : Text
  pub has_retention : Text
  pub sort : Option Text
  pub order : Text
  pub page : Text
  pub page_size : Text

unfoldable pub unless_empty : {A : Type 0} → List A → Option (List A)
unless_empty [] = none
unless_empty (x ∷ xs) = some (x ∷ xs)

-- artifactSorts: the sort of a query value, with its default direction; createdAt where there is no value.
unfoldable pub sort_of : Option Text → Option (Sort × Bool)
sort_of none = some (by_creation, true)
sort_of (some s) =
    if text_eq s (codes "createdAt")
    then some (by_creation, true)
    else if text_eq s (codes "name")
    then some (by_name, false)
    else if text_eq s (codes "versionCount")
    then some (by_version_count, true)
    else if text_eq s (codes "largestVersion")
    then some (by_largest_version, true)
    else if text_eq s (codes "totalSize")
    then some (by_total_size, true)
    else none

unfoldable pub direction_of : Text → Bool → Option Bool
direction_of [] desc = some desc
direction_of (c ∷ s) desc =
    if text_eq (c ∷ s) (codes "asc")
    then some false
    else if text_eq (c ∷ s) (codes "desc")
    then some true
    else none

infixl 5 ◌>>=?◌
abbrev ◌>>=?◌ : {A B : Type 0} → Option A → (A → Option B) → Option B
none >>=? f = none
some a >>=? f = f a

pub record ArtifactList : Type 0 where
  pub filter : ArtifactFilter
  pub sort : Sort
  pub desc : Bool

-- parseArtifactListFilter, over the reading of RFC 3339 times
unfoldable pub parse_artifact_list_filter : (Text → Option ℕ) → ListQuery → Option ArtifactList
unfolding unless_empty sort_of direction_of
parse_artifact_list_filter parse_time q =
    parse_optional_older_than parse_time q.older_than >>=? λ older_than.
    parse_optional_int32 0 q.min_versions >>=? λ min_versions.
    parse_optional_int32 0 q.max_versions >>=? λ max_versions.
    parse_optional_bool q.has_files >>=? λ has_files.
    parse_optional_bool q.has_incomplete_files >>=? λ has_incomplete_files.
    parse_optional_int64 q.min_total_bytes >>=? λ min_total_bytes.
    parse_optional_bool q.has_retention >>=? λ has_retention. sort_of q.sort >>=? λ sort.
    direction_of q.order sort.1 >>=? λ desc. some (record {
      filter = record {
        name_prefix = unless_empty q.name;
        tag = unless_empty q.tag;
        types = unless_empty q.types;
        older_than = older_than;
        min_versions = min_versions;
        max_versions = max_versions;
        has_files = has_files;
        has_incomplete_files = has_incomplete_files;
        missing_tag = unless_empty q.missing_tag;
        min_total_bytes = min_total_bytes;
        has_retention = has_retention;
      };
      sort = sort.0;
      desc = desc;
    })

-- An artifact with its types, as an answer shows it.
pub record ArtifactResponse : Type 0 where
  pub artifact : Artifact
  pub types : List ArtifactType

abbrev types_or_none : DbResult (List (ℕ × ArtifactType)) × World → List (ℕ × ArtifactType) × World
types_or_none (ok rows, w) = (rows, w)
types_or_none (err e, w) = ([], w)

-- batchFetchTypes: without an artifact there is no query, and an error is logged only.
unfoldable pub batch_fetch_types :
    (Text → Text → Bool) → List Artifact → World → List (ℕ × ArtifactType) × World
batch_fetch_types name_before [] w = ([], w)
batch_fetch_types name_before (a ∷ rest) w =
    types_or_none
      (run (list_artifact_types_by_artifact_ids name_before (map (λ b. b.id) (a ∷ rest))) w)

unfoldable pub with_types : List (ℕ × ArtifactType) → Artifact → ArtifactResponse
with_types rows a = record {
  artifact = a;
  types = map (λ r. r.1) (keep_if (λ r. r.0 == a.id) rows);
}

module _ (name_before : Text → Text → Bool) where
  -- The part of List after the rows are read.
  unfoldable pub complete_page :
      (Text → Text → Bool)
      → Page
      → ArtifactFilter
      → List Artifact
      → Handler (PageResponse ArtifactResponse)
  unfolding batch_fetch_types with_types
  complete_page ilike page filter artifacts = do
    total ← run (count_registry_artifacts_filtered ilike filter) or internal_error
    rows ← (λ w. let (rows, w') = batch_fetch_types name_before artifacts w in (next rows, w'))
    pure (record { items = map (with_types rows) artifacts; total = total; page = page })

  -- The part of List after the parameters are read.
  unfoldable pub list_filtered :
      (Text → Text → Bool) → Page → ArtifactList → Handler (PageResponse ArtifactResponse)
  unfolding complete_page
  list_filtered ilike page l = do
    artifacts ←
        run (
          list_registry_artifacts_filtered ilike name_before l.filter l.sort l.desc (row_limit page)
            (row_offset page))
        or internal_error
    complete_page ilike page l.filter artifacts

  -- List
  unfoldable pub list_artifacts :
      (Text → Option ℕ) → (Text → Text → Bool) → ListQuery → Handler (PageResponse ArtifactResponse)
  unfolding list_filtered
  list_artifacts parse_time ilike q = do
    l ← require 400 (parse_artifact_list_filter parse_time q)
    list_filtered ilike (parse_pagination q.page q.page_size) l

  -- Get
  unfoldable pub get_artifact : Text → Handler ArtifactResponse
  get_artifact raw_id = do
    id ← require 400 (path_id raw_id)
    a ← run (get_registry_artifact id) or not_found_or_internal
    types ← run (list_artifact_types_by_artifact_id name_before id) or internal_error
    pure (record { artifact = a; types = types })

  -- Update; the description is `none` where the body does not bind.
  unfoldable pub update_artifact : Text → Option (Option Text) → Handler ArtifactResponse
  update_artifact raw_id description = do
    id ← require 400 (path_id raw_id)
    description ← require 400 description
    a ← run (update_registry_artifact id description) or not_found_or_internal
    types ← run (list_artifact_types_by_artifact_id name_before id) or internal_error
    pure (record { artifact = a; types = types })
