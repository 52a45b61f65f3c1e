-- ===== src/Tests/Lists.antt =====
-- The version, tag and file lists at a small registry.
use fusion_index.Prelude.{
  false, ◌^◌, ◌<◌, ℕ, ◌*◌, ◌≡◌, ◌⊎◌, refl, Bool, true, none, some, List, [], ◌∷◌, Text, codes,
  arith, length, ◌≤◌, All, find, text_eq, exists, keep_if,
}
use fusion_index.Strconv.{parse_int, parse_digits, scan, is_digit, positive_in_range}
use fusion_index.Semver.{parse}
use fusion_index.Db.{Version, Tag, one_row, delete_versions}
use fusion_index.Db.Artifacts.{find_artifact, get_registry_artifact}
use fusion_index.Db.Versions.{is_protected, get_artifact_version}
use fusion_index.Db.Files.{list_artifact_files}
use fusion_index.Db.Tags.{list_artifact_tags}
use fusion_index.Db.Windowed.{limited, counted_rows}
use fusion_index.Db.Filtered.{
  list_versions_window, matched_rows, selects, in_artifact, matches, rank, sort_rows, to_row,
}
use fusion_index.Db.Pages.{order_by, insert_by}
use fusion_index.Db.TagList.{TagFilter, matched_tags, selects_tag, tag_rows}
use fusion_index.Session.{run, next_fate, perform}
use fusion_index.Handlers.{next}
use fusion_index.Handlers.Params.{
  path_id, to_bits, parse_optional_bool, parse_bool, one_of, given, parse_optional_int32,
  int32_at_least, to_int32, parse_optional_older_than, parse_optional_int64,
}
use fusion_index.Handlers.Windowed.{plain_rows}
use fusion_index.Handlers.Windowed.Pages.{browse, HasTotal, page_at}
use fusion_index.Handlers.Bulk.{parse_version_filter, any_set, is_true, bulk_delete}
use fusion_index.Handlers.Versions.Lists.{
  VersionQuery, is_set, query_versions, with_tags, list_versions, list_all_versions,
}
use fusion_index.Handlers.Versions.Listed.{shows, list_versions-Deletes}
use fusion_index.Handlers.Versions.Pages.{
  version_of, versions_on, all_versions, list_all_versions_complete,
}
use fusion_index.Handlers.Tags.Lists.{list_matching_tags}
use fusion_index.Handlers.Tags.Pages.{all_tags, tags_on, list_matching_tags_complete}
use fusion_index.Handlers.Files.Lists.{FileResponse, to_file_response, list_files}
use fusion_index.Safety.Listed.{IsServed, list_files-IsServed}
use fusion_index.Tests.Registry.{
  file, world, calm_world, tables-IsKeyed, file-IsPublished, no_times, query, filter, query-filter,
  old, old-found, one_zero,
}

abbrev by_name : Text → Text → Bool
by_name s t = true

abbrev deletable_query : VersionQuery
deletable_query = record { filters = query []; deletable = codes "true" }

abbrev one : Text
one = codes "1"

pub one_id : path_id one ≡ some 1
unfolding path_id to_bits parse_int parse_digits scan is_digit positive_in_range
one_id = refl

set : parse_optional_bool (codes "true") ≡ some (some true)
unfolding parse_optional_bool parse_bool one_of given text_eq exists
set = refl

-- Of the versions 2.0.0 and 1.0.0 all but the latest are asked for.
abbrev items : List (Version × List Tag)
items = (old, []) ∷ []

listed :
    list_versions no_times (codes "protected") by_name one deletable_query calm_world
    ≡ (next items, calm_world)
unfolding list_versions query_versions with_tags plain_rows get_registry_artifact find_artifact
    one_row list_versions_window matched_rows limited counted_rows selects in_artifact matches rank
    sort_rows to_row is_protected list_artifact_tags order_by insert_by run next_fate perform
    path_id to_bits parse_int parse_digits scan is_digit positive_in_range parse_version_filter
    parse_optional_int32 int32_at_least to_int32 parse_optional_older_than parse_optional_bool
    parse_optional_int64 parse_bool one_of given text_eq exists keep_if find is_set
listed = refl

list_versions-Deletes_example :
    (((bulk_delete no_times (codes "protected") (some 1) (query []) calm_world).1.db ≡ world.db)
      ⊎ ((bulk_delete no_times (codes "protected") (some 1) (query []) calm_world).1.db
          ≡ delete_versions (shows items) world.db))
    × (calm_world.fates ≡ []
        → any_set filter ≡ true
        → is_true [] ≡ false
        → (bulk_delete no_times (codes "protected") (some 1) (query []) calm_world).1.db
          ≡ delete_versions (shows items) world.db)
list_versions-Deletes_example =
    list_versions-Deletes no_times (codes "protected") by_name one deletable_query 1 filter
      calm_world calm_world calm_world items one_id (query-filter (some 1)) set tables-IsKeyed
      listed refl refl

few :
    length
      (all_versions no_times (codes "protected") by_name deletable_query calm_world filter true)
    ≤ 2 * 2
unfolding matched_rows selects in_artifact matches rank sort_rows to_row is_protected text_eq exists
    keep_if
few = omega arith

list_all_versions_complete_example :
    (browse version_of
        (versions_on no_times (codes "protected") by_name deletable_query calm_world 2)
        0
        2
      ≡ all_versions no_times (codes "protected") by_name deletable_query calm_world filter true)
    × ((k : ℕ)
        → k * 2 < 2 ^ 31
        → HasTotal version_of
            (length (
              all_versions no_times
                (codes "protected")
                by_name
                deletable_query
                calm_world
                filter
                true))
            (list_all_versions no_times
              (codes "protected")
              by_name
              (page_at 2 k)
              deletable_query
              calm_world).0)
unfolding is_set
list_all_versions_complete_example =
    list_all_versions_complete no_times (codes "protected") by_name deletable_query filter
      (some true) 2 2 calm_world (query-filter none) set refl (omega arith) (omega arith)
      (omega arith) few

abbrev any_tag : TagFilter
any_tag = record { tag = none; broken = some true }

few_tags : length (all_tags by_name any_tag calm_world) ≤ 1 * 1
unfolding matched_tags selects_tag tag_rows find_artifact exists keep_if find order_by insert_by
few_tags = omega arith

list_matching_tags_complete_example :
    (browse (λ i. i) (tags_on by_name any_tag calm_world 1) 0 1
      ≡ all_tags by_name any_tag calm_world)
    × ((k : ℕ)
        → k * 1 < 2 ^ 31
        → HasTotal
            (λ i. i)
            (length (all_tags by_name any_tag calm_world))
            (list_matching_tags by_name (page_at 1 k) any_tag calm_world).0)
list_matching_tags_complete_example =
    list_matching_tags_complete by_name any_tag 1 1 calm_world refl (omega arith) (omega arith)
      (omega arith) few_tags

pub one_zero_read : parse (codes "1.0.0") ≡ some one_zero
unfolding parse parse_int
one_zero_read = refl

abbrev responses : List FileResponse
responses = to_file_response 1 one_zero file ∷ []

files_listed : list_files one (codes "1.0.0") [] calm_world ≡ (next responses, calm_world)
unfolding list_files path_id parse_int parse run get_artifact_version find list_artifact_files
    keep_if
files_listed = refl

list_files-IsServed_example : All (IsServed calm_world) responses
list_files-IsServed_example =
    list_files-IsServed one (codes "1.0.0") [] 1 one_zero old calm_world calm_world responses
      file-IsPublished.safe refl refl (omega arith) (omega arith) one_id one_zero_read old-found
      files_listed
