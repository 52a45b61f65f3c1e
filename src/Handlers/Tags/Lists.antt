-- ===== src/Handlers/Tags/Lists.antt =====
-- TagHandler.ListAll of internal/api/handlers/tags.go: the tags of the whole registry.
use fusion_index.Prelude.{ℕ, Bool, Option, none, some, [], ◌∷◌, map, Text}
use fusion_index.Strconv.{pos}
use fusion_index.Semver.{to_text}
use fusion_index.Db.Filtered.{semver_of}
use fusion_index.Db.TagList.{TagRow, TagFilter, list_tags_filtered}
use fusion_index.Session.{run}
use fusion_index.Handlers.{Handler, ◌>>=◌, pure, require, ◌or◌, internal_error}
use fusion_index.Handlers.Params.{Page, parse_optional_bool, row_limit, row_offset}
use fusion_index.Handlers.Windowed.{total_of_page, plain_rows}
use fusion_index.Handlers.Admin.{PageResponse}

pub record TagListItem : Type 0 where
  pub id : ℕ
  pub artifact_id : ℕ
  pub artifact_name : Text
  pub tag : Text
  pub version_id : ℕ
  pub version : Text
  pub broken : Bool
  pub updated_at : ℕ

unfoldable pub to_tag_item : TagRow → TagListItem
to_tag_item r = record {
  id = r.tag.id;
  artifact_id = r.tag.artifact_id;
  artifact_name = r.artifact.full_name;
  tag = r.tag.tag;
  version_id = r.tag.version_id;
  version = to_text (semver_of r.version);
  broken = r.broken;
  updated_at = r.tag.updated_at;
}

-- The tag parameter, where it is not empty.
unfoldable pub tag_param : Text → Option Text
tag_param [] = none
tag_param (c ∷ tag) = some (c ∷ tag)

module _ (name_before : Text → Text → Bool) where
  unfoldable pub list_matching_tags : Page → TagFilter → Handler (PageResponse TagListItem)
  unfolding total_of_page plain_rows to_tag_item
  list_matching_tags page p = do
    rows ←
        run (list_tags_filtered name_before p (row_limit page) (row_offset page)) or internal_error
    total ←
        total_of_page page.page rows
          (run (list_tags_filtered name_before p (pos 1) (pos 0)) or internal_error)
    pure (record { items = map to_tag_item (plain_rows rows); total = total; page = page })

  -- ListAll
  unfoldable pub list_all_tags : Page → Text → Text → Handler (PageResponse TagListItem)
  unfolding list_matching_tags tag_param
  list_all_tags page tag raw_broken = do
    broken ← require 400 (parse_optional_bool raw_broken)
    list_matching_tags page (record { tag = tag_param tag; broken = broken })
