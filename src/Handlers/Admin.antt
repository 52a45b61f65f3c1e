-- ===== src/Handlers/Admin.antt =====
-- internal/api/handlers/admin.go: lists of what the clean-ups would remove, and the clean-ups.
pub mod Keeps
pub mod Counts
use fusion_index.Prelude.{
  ℕ, ◌-◌, Option, none, some, Bool, List, [], ◌∷◌, map, length, Text, keep_if, ◌==◌,
}
use fusion_index.Strconv.{ℤ}
use fusion_index.Db.{DbResult, ok, err, Artifact, Version, File, ArtifactType, Tag, Statement}
use fusion_index.Db.Tags.{list_tags_by_version_ids}
use fusion_index.Db.Types.{
  count_unused_artifact_types, list_unused_artifact_types, delete_unused_artifact_types,
}
use fusion_index.Db.Cleanup.{
  IncompleteFile, count_empty_artifacts, list_empty_artifacts, delete_empty_artifacts,
  count_artifacts_without_files, list_artifacts_without_files, delete_artifacts_without_files,
  count_versions_without_files, list_versions_without_files, delete_versions_without_files,
  count_incomplete_files, list_incomplete_files, delete_incomplete_files,
}
use fusion_index.Session.{World, run, remove_all}
use fusion_index.Handlers.{
  next, Handler, ◌>>=◌, ◌>>◌, pure, require, do_always, ◌or◌, internal_error, file_storage_path,
}
use fusion_index.Handlers.Params.{Page, parse_older_than, parse_pagination, row_limit, row_offset}
use fusion_index.Handlers.Bulk.{FilterQuery, BulkVersionDeleteResponse, bulk_delete}

-- tagsByVersionIDs: without an id there is no query, and an error is logged only.
abbrev tags_or_none : DbResult (List Tag) × World → List Tag × World
tags_or_none (ok tags, w) = (tags, w)
tags_or_none (err e, w) = ([], w)

unfoldable pub tags_by_version_ids : (Text → Text → Bool) → List ℕ → World → List Tag × World
tags_by_version_ids name_before [] w = ([], w)
tags_by_version_ids name_before (id ∷ ids) w =
    tags_or_none (run (list_tags_by_version_ids name_before (id ∷ ids)) w)

unfoldable pub tags_of : List Tag → Version → List Tag
tags_of tags v = keep_if (λ t. t.version_id == v.id) tags

-- dto.PageResponse
pub record PageResponse (A : Type 0) : Type 0 where
  pub items : List A
  pub total : ℕ
  pub page : Page

pub record CleanupResponse : Type 0 where
  pub deleted : ℕ
  pub skipped : ℕ

-- The difference of two int64 counts, and 0 where it is not above 0.
unfoldable pub skipped_of : ℕ → ℕ → ℕ
skipped_of total deleted = total - deleted

unfoldable pub respond : ℕ → ℕ → CleanupResponse
unfolding skipped_of
respond total deleted = record { deleted = deleted; skipped = skipped_of total deleted }

-- The path is rebuilt, since the row holds the placeholder.
unfoldable pub path_of_incomplete : IncompleteFile → Text
path_of_incomplete r = file_storage_path r.artifact_id r.semver r.id r.name

module _ (parse_time : Text → Option ℕ) where
  -- The body that the lists share.
  abbrev pub list_page :
      {A : Type 0}
      → (ℕ → ℤ → ℤ → Statement (List A))
      → (ℕ → Statement ℕ)
      → Text
      → Page
      → Handler (PageResponse A)
  list_page list count older_than page = do
    before ← require 400 (parse_older_than parse_time older_than)
    items ← run (list before (row_limit page) (row_offset page)) or internal_error
    total ← run (count before) or internal_error
    pure (record { items = items; total = total; page = page })

  -- The body that the clean-ups without objects share: the count is taken before the delete.
  abbrev pub clean_up : (ℕ → Statement ℕ) → (ℕ → Statement ℕ) → Text → Handler CleanupResponse
  clean_up count delete older_than = do
    before ← require 400 (parse_older_than parse_time older_than)
    total ← run (count before) or internal_error
    deleted ← run (delete before) or internal_error
    pure (respond total deleted)

  -- ListEmptyArtifacts
  unfoldable pub list_empty : Text → Page → Handler (PageResponse Artifact)
  list_empty = list_page list_empty_artifacts count_empty_artifacts

  -- ListArtifactsWithoutFiles
  unfoldable pub list_fileless : Text → Page → Handler (PageResponse Artifact)
  list_fileless = list_page list_artifacts_without_files count_artifacts_without_files

  -- ListIncompleteFiles
  unfoldable pub list_incomplete : Text → Page → Handler (PageResponse (File × Version))
  list_incomplete = list_page list_incomplete_files count_incomplete_files

  -- ListVersionsWithoutFiles, which decorates the rows with their tags
  unfoldable pub list_bare :
      (Text → Text → Bool) → Text → Page → Handler (PageResponse (Version × List Tag))
  unfolding tags_by_version_ids tags_of
  list_bare name_before older_than page = do
    found ← list_page list_versions_without_files count_versions_without_files older_than page
    tags ← (λ w.
        let (tags, w') = tags_by_version_ids name_before (map (λ v. v.id) found.items) w in
        (next tags, w'))
    pure (record {
      items = map (λ v. (v, tags_of tags v)) found.items;
      total = found.total;
      page = found.page;
    })

  -- ListUnusedTypes
  unfoldable pub list_unused_types :
      (Text → Text → Bool) → Text → Page → Handler (PageResponse ArtifactType)
  list_unused_types name_before =
      list_page (list_unused_artifact_types name_before) count_unused_artifact_types

  -- DeleteUnusedTypes
  unfoldable pub delete_unused_types : Text → Handler CleanupResponse
  delete_unused_types = clean_up count_unused_artifact_types delete_unused_artifact_types

  module _ (protected_tag : Text) where
    -- DeleteEmptyArtifacts
    unfoldable pub delete_empty : Text → Handler CleanupResponse
    delete_empty =
        clean_up count_empty_artifacts (λ before. delete_empty_artifacts before protected_tag)

    -- DeleteArtifactsWithoutFiles
    unfoldable pub delete_fileless : Text → Handler CleanupResponse
    delete_fileless =
        clean_up count_artifacts_without_files
          (λ before. delete_artifacts_without_files before protected_tag)

    -- DeleteVersionsWithoutFiles
    unfoldable pub delete_bare : Text → Handler CleanupResponse
    delete_bare =
        clean_up count_versions_without_files
          (λ before. delete_versions_without_files before protected_tag)

    -- DeleteIncompleteFiles
    unfoldable pub delete_incomplete : Text → Handler CleanupResponse
    unfolding path_of_incomplete
    delete_incomplete older_than = do
      before ← require 400 (parse_older_than parse_time older_than)
      total ← run (count_incomplete_files before) or internal_error
      rows ← run (delete_incomplete_files before protected_tag) or internal_error
      do_always (remove_all (map path_of_incomplete rows))
      pure (respond total (length rows))

    -- BulkDeleteVersions: the bulk delete of every artifact
    unfoldable pub bulk_delete_versions : FilterQuery → Handler BulkVersionDeleteResponse
    bulk_delete_versions = bulk_delete parse_time protected_tag none
