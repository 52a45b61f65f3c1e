-- ===== src/Handlers/Files.antt =====
-- internal/api/handlers/files.go: upload, read, download and delete of one file.
pub mod Lists
use fusion_index.Prelude.{
  ℕ, Bool, true, false, Option, some, [], ◌∷◌, length, Text, codes, ◌==◌, if◌then◌else◌,
}
use fusion_index.Semver.{Semver, parse}
use fusion_index.Db.{DbResult, ok, err, Version, File, FileStatus, pending, available, error}
use fusion_index.Db.Versions.{get_artifact_version}
use fusion_index.Db.Files.{
  create_artifact_file, get_artifact_file, update_artifact_file_stored, update_artifact_file_status,
  delete_artifact_file,
}
use fusion_index.Session.{World, Call, run, store, retrieve, remove}
use fusion_index.Handlers.{
  Step, next, failed, Handler, ◌>>=◌, ◌>>◌, pure, fail, require, do_always, ◌or◌, internal_error,
  not_found_or_internal, conflict_or_internal, file_storage_path, file_object_path,
}
use fusion_index.Handlers.Params.{path_id}

pub record Resolved : Type 0 where
  pub artifact_id : ℕ
  pub semver : Semver
  pub version : Version

-- resolveVersion
unfoldable pub resolve_version : Text → Text → Handler Resolved
resolve_version raw_id raw_semver = do
  artifact_id ← require 400 (path_id raw_id)
  sv ← require 400 (parse raw_semver)
  version ← run (get_artifact_version artifact_id sv) or not_found_or_internal
  pure (record { artifact_id = artifact_id; semver = sv; version = version })

-- The form of an upload: the file part, its Content-Type header and the contentType field.
pub record UploadForm : Type 0 where
  pub filename : Text
  pub content : Text
  pub header_type : Text
  pub content_type : Text

unfoldable pub or_default : Text → Text → Text
or_default [] def = def
or_default (c ∷ s) def = c ∷ s

unfoldable pub content_type_of : UploadForm → Text
unfolding or_default
content_type_of form =
    or_default (or_default form.content_type form.header_type) (codes "application/octet-stream")

-- A call whose error is ignored.
abbrev pub ignoring : {A : Type 0} → Call A → World → World
ignoring call w = (call w).1

-- A call whose error is cleaned up after and answered with 500.
abbrev pub recover : {A : Type 0} → (World → World) → DbResult A × World → Step A × World
recover clean (ok a, w) = (next a, w)
recover clean (err e, w) = (failed 500, clean w)

abbrev pub cleaning : {A : Type 0} → Call A → (World → World) → Handler A
cleaning call clean w = recover clean (call w)

unfoldable pub mark_error : ℕ → World → World
mark_error id = ignoring (run (update_artifact_file_status id error))

unfoldable pub undo_store : ℕ → Text → World → World
unfolding mark_error
undo_store id path w = remove path (mark_error id w)

-- From the row that was created to the row that is AVAILABLE.
unfoldable pub finish_upload : Resolved → UploadForm → File → Handler File
unfolding undo_store mark_error
finish_upload r form row = do
  path ←
      cleaning (store (file_storage_path r.artifact_id r.semver row.id form.filename) form.content)
        (mark_error row.id)
  cleaning (run (update_artifact_file_stored row.id path (length form.content)))
      (undo_store row.id path)

-- Upload, which answers 201 with the row.
unfoldable pub upload : Text → Text → Text → Option UploadForm → Handler File
unfolding resolve_version finish_upload content_type_of
upload backend raw_id raw_semver form = do
  r ← resolve_version raw_id raw_semver
  form ← require 400 form
  row ←
      run (
        create_artifact_file (record {
          version_id = r.version.id;
          name = form.filename;
          content_type = some (content_type_of form);
          storage_backend = backend;
          storage_path = codes "pending";
        }))
      or conflict_or_internal
  finish_upload r form row

-- The checks that Get, Download and Delete share: the file belongs to the version.
unfoldable pub file_of_version : Text → Resolved → Handler File
file_of_version raw_file_id r = do
  file_id ← require 400 (path_id raw_file_id)
  f ← run (get_artifact_file file_id) or not_found_or_internal
  if f.version_id == r.version.id then pure f else fail 404

-- Get
unfoldable pub get_file : Text → Text → Text → Handler File
unfolding resolve_version file_of_version
get_file raw_id raw_semver raw_file_id = do
  r ← resolve_version raw_id raw_semver
  file_of_version raw_file_id r

unfoldable pub is_available : FileStatus → Bool
is_available available = true
is_available pending = false
is_available error = false

-- Download, which answers with the content of the object.
unfoldable pub download : Text → Text → Text → Handler Text
unfolding resolve_version file_of_version is_available
download raw_id raw_semver raw_file_id = do
  r ← resolve_version raw_id raw_semver
  f ← file_of_version raw_file_id r
  if is_available f.status then retrieve f.storage_path or internal_error else fail 409

-- Delete
unfoldable pub delete_file : Text → Text → Text → Handler (Unit {0})
unfolding resolve_version file_of_version
delete_file raw_id raw_semver raw_file_id = do
  r ← resolve_version raw_id raw_semver
  f ← file_of_version raw_file_id r
  do_always (remove (file_object_path f r.artifact_id r.semver))
  run (delete_artifact_file f.id) or internal_error
