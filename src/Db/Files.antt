-- ===== src/Db/Files.antt =====
-- internal/db/sqlc/registry_files.sql.go: the statements on files.
use fusion_index.Prelude.{
  ℕ, ◌+◌, Bool, ◌&&◌, not, Option, none, some, List, [], ◌∷◌, map, Text, keep_if, find, exists,
  text_eq, ◌==◌, if◌then◌else◌,
}
use fusion_index.Db.{
  Version, FileStatus, pending, available, File, Db, unique_violation, foreign_key_violation, ok,
  err, Statement, one_row, increment,
}
use fusion_index.Db.Versions.{find_version, listed}

unfoldable pub next_file : Db → Db
next_file db = record db {
  sequences = record (db.sequences) { file = db.sequences.file + increment };
}

pub record CreateArtifactFileParams : Type 0 where
  pub version_id : ℕ
  pub name : Text
  pub content_type : Option Text
  pub storage_backend : Text
  pub storage_path : Text

unfoldable pub named : ℕ → Text → File → Bool
named version_id name f = f.version_id == version_id && text_eq f.name name

-- The row that an insert adds; the size is NULL.
unfoldable pub new_file : CreateArtifactFileParams → ℕ → Db → File
new_file p now db = record {
  id = db.sequences.file;
  version_id = p.version_id;
  name = p.name;
  content_type = p.content_type;
  size_bytes = none;
  storage_backend = p.storage_backend;
  storage_path = p.storage_path;
  status = pending;
  created_at = now;
  updated_at = now;
}

unfoldable pub insert_file : File → Db → Db
unfolding next_file
insert_file row db = record (next_file db) { files = row ∷ db.files }

unfoldable pub create_artifact_file : CreateArtifactFileParams → Statement File
unfolding next_file named new_file insert_file
create_artifact_file p now db =
    if exists (named p.version_id p.name) db.files
    then (err unique_violation, next_file db)
    else if not (exists (λ v. v.id == p.version_id) db.versions)
    then (err foreign_key_violation, next_file db)
    else (ok (new_file p now db), insert_file (new_file p now db) db)

unfoldable pub find_file : ℕ → Db → Option File
find_file id db = find (λ f. f.id == id) db.files

unfoldable pub get_artifact_file : ℕ → Statement File
unfolding find_file one_row
get_artifact_file id now db = (one_row (find_file id db), db)

unfoldable pub list_artifact_files : ℕ → Statement (List File)
list_artifact_files version_id now db =
    (ok (keep_if (λ f. f.version_id == version_id) db.files), db)

unfoldable pub stored : ℕ → Text → ℕ → ℕ → File → File
stored id path size now f =
    if f.id == id
    then record f {
      storage_path = path;
      size_bytes = some size;
      status = available;
      updated_at = now;
    }
    else f

unfoldable pub update_artifact_file_stored : ℕ → Text → ℕ → Statement File
unfolding stored find_file one_row
update_artifact_file_stored id path size now db =
    let db' = record db { files = map (stored id path size now) db.files } in
    (one_row (find_file id db'), db')

unfoldable pub with_status : ℕ → FileStatus → ℕ → File → File
with_status id status now f =
    if f.id == id then record f { status = status; updated_at = now } else f

unfoldable pub update_artifact_file_status : ℕ → FileStatus → Statement (Unit {0})
unfolding with_status
update_artifact_file_status id status now db =
    (ok tt, record db { files = map (with_status id status now) db.files })

unfoldable pub delete_artifact_file : ℕ → Statement (Unit {0})
delete_artifact_file id now db =
    (ok tt, record db { files = keep_if (λ f. not (f.id == id)) db.files })

unfoldable pub list_files_by_version_ids : List ℕ → Statement (List File)
unfolding listed
list_files_by_version_ids ids now db = (ok (keep_if (λ f. listed ids f.version_id) db.files), db)

-- A file with the version that it belongs to, as the join returns them.
unfoldable pub join_version : Db → List File → List (File × Version)
unfolding find_version
join_version db [] = []
join_version db (f ∷ fs) =
    let rest = join_version db fs in
    elim (find_version f.version_id db) [ none ↦ rest | some v ↦ (f, v) ∷ rest ]

unfoldable pub list_files_by_artifact_id : ℕ → Statement (List (File × Version))
unfolding join_version
list_files_by_artifact_id artifact_id now db =
    (ok (keep_if (λ r. r.1.artifact_id == artifact_id) (join_version db db.files)), db)
