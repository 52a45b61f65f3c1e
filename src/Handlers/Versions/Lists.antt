-- ===== src/Handlers/Versions/Lists.antt =====
-- The version lists: VersionHandler.List and ListAll of internal/api/handlers/versions.go, and the
-- query of version_bulk.go that they share.
use fusion_index.Prelude.{ℕ, Bool, false, Option, none, some, is_some, List, map, Text}
use fusion_index.Strconv.{ℤ, pos}
use fusion_index.Db.{Version, Tag}
use fusion_index.Db.Artifacts.{get_registry_artifact}
use fusion_index.Db.Tags.{list_artifact_tags}
use fusion_index.Db.Windowed.{Counted}
use fusion_index.Db.Filtered.{FilteredRow, list_versions_window}
use fusion_index.Session.{run}
use fusion_index.Handlers.{
  next, Handler, ◌>>=◌, pure, require, ◌or◌, internal_error, not_found_or_internal,
}
use fusion_index.Handlers.Params.{Page, path_id, parse_optional_bool, row_limit, row_offset}
use fusion_index.Handlers.Windowed.{total_of_page, plain_rows}
use fusion_index.Handlers.Bulk.{
  FilterQuery, BulkVersionDeleteResponse, parse_version_filter, bulk_delete,
}
use fusion_index.Handlers.Admin.{PageResponse, tags_by_version_ids, tags_of}

-- The filters, and the deletable parameter.
pub record VersionQuery : Type 0 where
  pub filters : FilterQuery
  pub deletable : Text

-- deletable != nil && *deletable
unfoldable pub is_set : Option Bool → Bool
is_set none = false
is_set (some b) = b

-- versionFromFilteredRow, with its tags
unfoldable pub with_tags : List Tag → FilteredRow → Version × List Tag
unfolding tags_of
with_tags tags r = (r.version, tags_of tags r.version)

module _ (parse_time : Text → Option ℕ) (protected_tag : Text) where
  -- filteredVersions.query
  unfoldable pub query_versions :
      Option ℕ → Option ℤ → ℤ → VersionQuery → Handler (List (Counted FilteredRow))
  unfolding is_set
  query_versions artifact_id limit offset q = do
    params ← require 400 (parse_version_filter parse_time (is_some artifact_id) q.filters)
    deletable ← require 400 (parse_optional_bool q.deletable)
    run (list_versions_window artifact_id params protected_tag (is_set deletable) limit offset)
        or internal_error

  module _ (name_before : Text → Text → Bool) where
    -- List
    unfoldable pub list_versions : Text → VersionQuery → Handler (List (Version × List Tag))
    unfolding query_versions with_tags plain_rows
    list_versions raw_id q = do
      artifact_id ← require 400 (path_id raw_id)
      _ ← run (get_registry_artifact artifact_id) or not_found_or_internal
      rows ← query_versions (some artifact_id) none (pos 0) q
      tags ← run (list_artifact_tags name_before artifact_id) or internal_error
      pure (map (with_tags tags) (plain_rows rows))

    -- ListAll
    unfoldable pub list_all_versions :
        Page → VersionQuery → Handler (PageResponse (Version × List Tag))
    unfolding query_versions with_tags plain_rows total_of_page tags_by_version_ids
    list_all_versions page q = do
      rows ← query_versions none (some (row_limit page)) (row_offset page) q
      total ← total_of_page page.page rows (query_versions none (some (pos 1)) (pos 0) q)
      tags ← (λ w.
          let (tags, w') =
            tags_by_version_ids name_before (map (λ r. r.version.id) (plain_rows rows)) w in
          (next tags, w'))
      pure (record { items = map (with_tags tags) (plain_rows rows); total = total; page = page })

-- BulkDelete: the bulk delete of one artifact
unfoldable pub bulk_delete_of_artifact :
    (Text → Option ℕ) → Text → Text → FilterQuery → Handler BulkVersionDeleteResponse
unfolding bulk_delete
bulk_delete_of_artifact parse_time protected_tag raw_id q = do
  artifact_id ← require 400 (path_id raw_id)
  _ ← run (get_registry_artifact artifact_id) or not_found_or_internal
  bulk_delete parse_time protected_tag (some artifact_id) q
