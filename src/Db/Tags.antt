-- ===== src/Db/Tags.antt =====
-- internal/db/sqlc/registry_tags.sql.go: the statements on tags.
use fusion_index.Prelude.{
  ℕ, ◌+◌, Bool, ◌&&◌, ◌||◌, not, Option, List, ◌∷◌, map, Text, keep_if, find, exists, text_eq, ltb,
  ◌==◌, if◌then◌else◌,
}
use fusion_index.Db.Versions.{listed}
use fusion_index.Db.Pages.{order_by}
use fusion_index.Db.{Tag, Db, foreign_key_violation, ok, err, Statement, one_row, increment}

unfoldable pub next_tag : Db → Db
next_tag db = record db { sequences = record (db.sequences) { tag = db.sequences.tag + increment } }

unfoldable pub carries : ℕ → Text → Tag → Bool
carries artifact_id tag t = t.artifact_id == artifact_id && text_eq t.tag tag

unfoldable pub find_tag : ℕ → Text → Db → Option Tag
unfolding carries
find_tag artifact_id tag db = find (carries artifact_id tag) db.tags

unfoldable pub move_tag : ℕ → Text → ℕ → ℕ → Tag → Tag
unfolding carries
move_tag artifact_id tag version_id now t =
    if carries artifact_id tag t then record t { version_id = version_id; updated_at = now } else t

-- INSERT … ON CONFLICT (artifact_id, tag) DO UPDATE; the conflict draws an id from the sequence too.
unfoldable pub upsert_artifact_tag : ℕ → Text → ℕ → Statement Tag
unfolding next_tag move_tag find_tag one_row
upsert_artifact_tag artifact_id tag version_id now db =
    if not (
      exists (λ a. a.id == artifact_id) db.artifacts
      && exists (λ v. v.id == version_id) db.versions)
    then (err foreign_key_violation, next_tag db)
    else if exists (carries artifact_id tag) db.tags
    then (let db' = record (next_tag db) {
      tags = map (move_tag artifact_id tag version_id now) db.tags;
    } in
        (one_row (find_tag artifact_id tag db'), db'))
    else (let row : Tag = record {
      id = db.sequences.tag;
      artifact_id = artifact_id;
      tag = tag;
      version_id = version_id;
      created_at = now;
      updated_at = now;
    } in
        (ok row, record (next_tag db) { tags = row ∷ db.tags }))

unfoldable pub get_artifact_tag : ℕ → Text → Statement Tag
unfolding find_tag one_row
get_artifact_tag artifact_id tag now db = (one_row (find_tag artifact_id tag db), db)

unfoldable pub delete_artifact_tag : ℕ → Text → Statement (Unit {0})
unfolding carries
delete_artifact_tag artifact_id tag now db =
    (ok tt, record db { tags = keep_if (λ t. not (carries artifact_id tag t)) db.tags })

unfoldable pub list_artifact_tags_by_version_id : ℕ → Statement (List Tag)
list_artifact_tags_by_version_id version_id now db =
    (ok (keep_if (λ t. t.version_id == version_id) db.tags), db)

-- The lists are ordered by the collation of the database, which is the parameter `name_before`.
module _ (name_before : Text → Text → Bool) where
  abbrev pub tag_before : Tag → Tag → Bool
  tag_before t u = name_before t.tag u.tag

  unfoldable pub list_artifact_tags : ℕ → Statement (List Tag)
  list_artifact_tags artifact_id now db =
      (ok (order_by tag_before (keep_if (λ t. t.artifact_id == artifact_id) db.tags)), db)

  -- ORDER BY version_id ASC, tag ASC
  abbrev pub by_version : Tag → Tag → Bool
  by_version t u = ltb t.version_id u.version_id || (t.version_id == u.version_id && tag_before t u)

  unfoldable pub list_tags_by_version_ids : List ℕ → Statement (List Tag)
  unfolding listed
  list_tags_by_version_ids ids now db =
      (ok (order_by by_version (keep_if (λ t. listed ids t.version_id) db.tags)), db)
