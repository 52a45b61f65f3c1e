-- ===== src/Safety/Upload.antt =====
-- An upload of internal/api/handlers/files.go keeps the tables and storage in step.
pub mod Draft
pub mod Publish
pub mod Create
use fusion_index.Prelude.{
  ℕ, ◌≡◌, refl, sym, ◌∙◌, ap, Option, some, is_some, find, List, Text, codes, length, take, arith,
  All, if_cases, not, exists, find-map, ◌==◌,
}
use fusion_index.Semver.{parse}
use fusion_index.Db.{
  Db, File, available, error, DbError, unique_violation, foreign_key_violation, DbResult, ok, err,
  one_row,
}
use fusion_index.Db.Versions.{get_artifact_version}
use fusion_index.Db.Files.{
  CreateArtifactFileParams, create_artifact_file, new_file, next_file, insert_file, named,
  find_file, update_artifact_file_stored, update_artifact_file_status, stored,
}
use fusion_index.Session.{Fate, World, find_object, put_object, without, store, run, remove}
use fusion_index.Session.Objects.{find_object-put_object_self, find_object-without}
use fusion_index.Session.Cases.{Answered, run_cases, run_answered, store_cases, remove_cases}
use fusion_index.Handlers.{
  file_storage_path, conflict_or_internal, not_found_or_internal, ◌or◌, step_of,
}
use fusion_index.Handlers.Paths.{Owns}
use fusion_index.Handlers.Params.{path_id}
use fusion_index.Handlers.Post.{
  Post-map, Post-step, Post, Post-continue, Post-require, run-Post-Answered,
}
use fusion_index.Handlers.Files.{
  Resolved, UploadForm, cleaning, recover, mark_error, undo_store, finish_upload, resolve_version,
  upload, content_type_of,
}
use fusion_index.Safety.{IsSafeWorld}
use mathlib.Core.Path.{subst}
use fusion_index.Safety.Files.{
  stored-id, Unpublished, mark-IsSafe, mark-Unpublished, stored-IsSafe, put-IsSafe, any_objects,
  next_file-IsSafe, insert-IsSafe, insert-Unpublished,
}
use fusion_index.Safety.Upload.Draft.{
  IsHidden, mark_error-IsHidden, undo_store-IsHidden, IsDraft, put-IsHidden, IsStored,
  store-IsStored,
}
use fusion_index.Safety.Upload.Publish.{IsPublished, finish_upload-IsPublished}
use fusion_index.Safety.Upload.Create.{
  IsReady, IsCreated, create-IsCreated, resolve_version-IsReady,
}

-- What an upload of an optional form ends with.
abbrev pub IsUploaded : Option UploadForm → File → World → Type 0
IsUploaded form f w = (g : UploadForm) × (form ≡ some g) × IsPublished g f w

-- An upload, from a world whose AVAILABLE rows have their objects and where no answer of the
-- database is lost, whatever becomes of the calls of storage: if it succeeds, the row that it
-- returns is in the table, AVAILABLE, with the name and the size of the upload, and its object has
-- exactly the content. On every way out, errors included, all AVAILABLE rows have their objects.
pub upload-IsPublished :
    (backend raw_id raw_semver : Text) (form : Option UploadForm) (w : World)
    → IsSafeWorld w
    → All Answered w.fates
    → Post (IsUploaded form) IsSafeWorld (upload backend raw_id raw_semver form w)
unfolding upload
upload-IsPublished backend raw_id raw_semver form w h k =
    Post-continue (λ _. IsReady) (IsUploaded form) IsSafeWorld _ _
      (resolve_version-IsReady raw_id raw_semver w (h, k))
      (λ r w1 h1. Post-require (IsUploaded form) IsSafeWorld 400 form _ w1 h1.0 (λ g e.
        Post-continue (IsCreated (params r g)) (IsUploaded form) IsSafeWorld _ _
          (create-IsCreated (params r g) w1 h1)
          (λ row w2 (draft, name).
            Post-map (IsPublished g) (IsUploaded form) IsSafeWorld _ (λ f u p. (g, e, p))
              (finish_upload-IsPublished r g row w2 name draft))))
  where
    params : Resolved → UploadForm → CreateArtifactFileParams
    params r g = record {
      version_id = r.version.id;
      name = g.filename;
      content_type = some (content_type_of g);
      storage_backend = backend;
      storage_path = codes "pending";
    }
