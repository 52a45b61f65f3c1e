-- ===== src/Db/Types.antt =====
-- internal/db/sqlc/registry_types.sql.go and registry_artifact_type_map.sql.go: the statements on
-- types and on their assignment to artifacts. Names are ordered by the collation of the database,
-- which is the parameter `name_before`.
use fusion_index.Prelude.{
  ℕ, ◌+◌, Bool, ◌&&◌, not, Option, List, ◌∷◌, map, length, Text, keep_if, find, exists, text_eq,
  ltb, ◌==◌, if◌then◌else◌,
}
use fusion_index.Strconv.{ℤ}
use fusion_index.Db.{
  ArtifactType, TypeMap, Db, unique_violation, foreign_key_violation, ok, err, Statement, one_row,
  increment, delete_types,
}
use fusion_index.Db.Filtered.{passes, same}
use fusion_index.Db.Pages.{order_by, page_of}

unfoldable pub next_type : Db → Db
next_type db = record db {
  sequences = record (db.sequences) { artifact_type = db.sequences.artifact_type + increment };
}

unfoldable pub create_artifact_type : Text → Option Text → Statement ArtifactType
unfolding next_type
create_artifact_type name description now db =
    if exists (λ t. text_eq t.name name) db.types
    then (err unique_violation, next_type db)
    else (let row : ArtifactType = record {
      id = db.sequences.artifact_type;
      name = name;
      description = description;
      created_at = now;
      updated_at = now;
    } in
        (ok row, record (next_type db) { types = row ∷ db.types }))

unfoldable pub find_type : ℕ → Db → Option ArtifactType
find_type id db = find (λ t. t.id == id) db.types

unfoldable pub get_artifact_type : ℕ → Statement ArtifactType
unfolding find_type one_row
get_artifact_type id now db = (one_row (find_type id db), db)

unfoldable pub get_artifact_type_by_name : Text → Statement ArtifactType
unfolding one_row
get_artifact_type_by_name name now db = (one_row (find (λ t. text_eq t.name name) db.types), db)

unfoldable pub rename : ℕ → Text → Option Text → ℕ → ArtifactType → ArtifactType
rename id name description now t =
    if t.id == id then record t { name = name; description = description; updated_at = now } else t

-- The unique index is met only where the row is there and another one has the name.
unfoldable pub update_artifact_type : ℕ → Text → Option Text → Statement ArtifactType
unfolding rename find_type one_row
update_artifact_type id name description now db =
    let db' = record db { types = map (rename id name description now) db.types } in
    if exists (λ t. t.id == id) db.types
      && exists (λ t. not (t.id == id) && text_eq t.name name) db.types
    then (err unique_violation, db)
    else (one_row (find_type id db'), db')

unfoldable pub delete_artifact_type : ℕ → Statement (Unit {0})
unfolding delete_types
delete_artifact_type id now db = (ok tt, delete_types (λ t. t.id == id) db)

-- Whether a type is assigned to no artifact.
unfoldable pub is_unused : Db → ArtifactType → Bool
is_unused db t = not (exists (λ m. m.type_id == t.id) db.type_maps)

module _ (name_before : Text → Text → Bool) where
  abbrev pub by_name : ArtifactType → ArtifactType → Bool
  by_name t u = name_before t.name u.name

  unfoldable pub list_artifact_types : Option Bool → Statement (List ArtifactType)
  unfolding is_unused
  list_artifact_types unused now db =
      (ok (order_by by_name (keep_if (λ t. passes (same (is_unused db t)) unused) db.types)), db)

  unfoldable pub list_artifact_types_by_artifact_id : ℕ → Statement (List ArtifactType)
  list_artifact_types_by_artifact_id artifact_id now db = (
    ok (
        order_by by_name (
          keep_if
            (λ t. exists (λ m. m.type_id == t.id && m.artifact_id == artifact_id) db.type_maps)
            db.types)),
    db,
  )

-- The types that the clean-up removes.
unfoldable pub is_stale_type : ℕ → Db → ArtifactType → Bool
unfolding is_unused
is_stale_type before db t = ltb t.created_at before && is_unused db t

unfoldable pub count_unused_artifact_types : ℕ → Statement ℕ
unfolding is_stale_type
count_unused_artifact_types before now db =
    (ok (length (keep_if (is_stale_type before db) db.types)), db)

unfoldable pub list_unused_artifact_types :
    (Text → Text → Bool) → ℕ → ℤ → ℤ → Statement (List ArtifactType)
unfolding is_stale_type
list_unused_artifact_types name_before before limit offset now db = (
  page_of limit offset
      (order_by (by_name name_before) (keep_if (is_stale_type before db) db.types)),
  db,
)

unfoldable pub delete_unused_artifact_types : ℕ → Statement ℕ
unfolding is_stale_type delete_types
delete_unused_artifact_types before now db = (
  ok (length (keep_if (is_stale_type before db) db.types)),
  delete_types (is_stale_type before db) db,
)

unfoldable pub next_type_map : Db → Db
next_type_map db = record db {
  sequences = record (db.sequences) { type_map = db.sequences.type_map + increment };
}

unfoldable pub assigned : ℕ → ℕ → TypeMap → Bool
assigned artifact_id type_id m = m.artifact_id == artifact_id && m.type_id == type_id

-- INSERT … ON CONFLICT DO NOTHING; an id is drawn either way.
unfoldable pub assign_artifact_type : ℕ → ℕ → Statement (Unit {0})
unfolding next_type_map assigned
assign_artifact_type artifact_id type_id now db =
    if exists (assigned artifact_id type_id) db.type_maps
    then (ok tt, next_type_map db)
    else if not
        (exists (λ a. a.id == artifact_id) db.artifacts && exists (λ t. t.id == type_id) db.types)
    then (err foreign_key_violation, next_type_map db)
    else (let row : TypeMap = record {
      id = db.sequences.type_map;
      artifact_id = artifact_id;
      type_id = type_id;
      created_at = now;
    } in
        (ok tt, record (next_type_map db) { type_maps = row ∷ db.type_maps }))

unfoldable pub get_artifact_type_assignment : ℕ → ℕ → Statement TypeMap
unfolding assigned one_row
get_artifact_type_assignment artifact_id type_id now db =
    (one_row (find (assigned artifact_id type_id) db.type_maps), db)

unfoldable pub remove_artifact_type : ℕ → ℕ → Statement (Unit {0})
unfolding assigned
remove_artifact_type artifact_id type_id now db = (
  ok tt,
  record db { type_maps = keep_if (λ m. not (assigned artifact_id type_id m)) db.type_maps },
)
