-- ===== src/Db/Artifacts.antt =====
-- internal/db/sqlc/registry_artifacts.sql.go: the statements on single artifacts.
use fusion_index.Prelude.{
  ℕ, ◌+◌, Option, ◌∷◌, map, Text, find, exists, text_eq, ◌==◌, if◌then◌else◌,
}
use fusion_index.Db.{
  Artifact, Db, unique_violation, ok, err, Statement, one_row, increment, delete_artifacts,
}

unfoldable pub next_artifact : Db → Db
next_artifact db = record db {
  sequences = record (db.sequences) { artifact = db.sequences.artifact + increment };
}

-- A failed insert has drawn its id from the sequence too.
unfoldable pub create_registry_artifact : Text → Option Text → Statement Artifact
unfolding next_artifact
create_registry_artifact full_name description now db =
    if exists (λ a. text_eq a.full_name full_name) db.artifacts
    then (err unique_violation, next_artifact db)
    else (let row : Artifact = record {
      id = db.sequences.artifact;
      full_name = full_name;
      description = description;
      created_at = now;
      updated_at = now;
    } in
        (ok row, record (next_artifact db) { artifacts = row ∷ db.artifacts }))

unfoldable pub find_artifact : ℕ → Db → Option Artifact
find_artifact id db = find (λ a. a.id == id) db.artifacts

unfoldable pub get_registry_artifact : ℕ → Statement Artifact
unfolding find_artifact one_row
get_registry_artifact id now db = (one_row (find_artifact id db), db)

unfoldable pub get_registry_artifact_by_name : Text → Statement Artifact
unfolding one_row
get_registry_artifact_by_name name now db =
    (one_row (find (λ a. text_eq a.full_name name) db.artifacts), db)

unfoldable pub describe : ℕ → Option Text → ℕ → Artifact → Artifact
describe id description now a =
    if a.id == id then record a { description = description; updated_at = now } else a

unfoldable pub update_registry_artifact : ℕ → Option Text → Statement Artifact
unfolding describe find_artifact one_row
update_registry_artifact id description now db =
    let db' = record db { artifacts = map (describe id description now) db.artifacts } in
    (one_row (find_artifact id db'), db')

unfoldable pub delete_registry_artifact : ℕ → Statement (Unit {0})
unfolding delete_artifacts
delete_registry_artifact id now db = (ok tt, delete_artifacts (λ a. a.id == id) db)
