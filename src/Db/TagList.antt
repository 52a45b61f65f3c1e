-- ===== src/Db/TagList.antt =====
-- ListTagsFiltered of internal/db/sqlc/registry_tags.sql.go: the tags of the whole registry.
use fusion_index.Prelude.{
  Bool, ◌&&◌, Option, none, some, List, [], ◌∷◌, Text, keep_if, text_eq, if◌then◌else◌,
}
use fusion_index.Strconv.{ℤ}
use fusion_index.Db.{Artifact, Version, Tag, Db, Statement}
use fusion_index.Db.Artifacts.{find_artifact}
use fusion_index.Db.Versions.{find_version}
use fusion_index.Db.Pages.{order_by}
use fusion_index.Db.Windowed.{Counted, counted_rows, limited}
use fusion_index.Db.Filtered.{passes, same}
use fusion_index.Db.Totals.{is_broken}

-- A row of the join of a tag with its artifact and its version.
pub record TagRow : Type 0 where
  pub tag : Tag
  pub artifact : Artifact
  pub version : Version
  pub broken : Bool

-- The inner joins: a tag without its artifact or its version has no row.
unfoldable pub join_rows : Db → Tag → Option Artifact → Option Version → List TagRow → List TagRow
unfolding is_broken
join_rows db t (some a) (some v) rows =
    record { tag = t; artifact = a; version = v; broken = is_broken db t } ∷ rows
join_rows db t none v rows = rows
join_rows db t (some a) none rows = rows

unfoldable pub tag_rows : Db → List Tag → List TagRow
unfolding join_rows find_artifact find_version
tag_rows db [] = []
tag_rows db (t ∷ ts) =
    join_rows db t (find_artifact t.artifact_id db) (find_version t.version_id db) (tag_rows db ts)

pub record TagFilter : Type 0 where
  pub tag : Option Text
  pub broken : Option Bool

unfoldable pub selects_tag : TagFilter → TagRow → Bool
unfolding passes same
selects_tag p r = passes (text_eq r.tag.tag) p.tag && passes (same r.broken) p.broken

module _ (name_before : Text → Text → Bool) where
  -- ORDER BY full_name, tag
  unfoldable pub tag_row_before : TagRow → TagRow → Bool
  tag_row_before r s =
      if text_eq r.artifact.full_name s.artifact.full_name
      then name_before r.tag.tag s.tag.tag
      else name_before r.artifact.full_name s.artifact.full_name

  unfoldable pub matched_tags : TagFilter → Db → List TagRow
  unfolding selects_tag tag_rows tag_row_before
  matched_tags p db = order_by tag_row_before (keep_if (selects_tag p) (tag_rows db db.tags))

  unfoldable pub list_tags_filtered : TagFilter → ℤ → ℤ → Statement (List (Counted TagRow))
  unfolding matched_tags limited counted_rows
  list_tags_filtered p limit offset now db =
      (limited (some limit) offset (counted_rows (matched_tags p db)), db)
