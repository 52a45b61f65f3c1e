-- ===== src/Handlers/Artifacts.antt =====
-- internal/api/handlers/artifacts.go: create and delete of one artifact.
pub mod Atomic
pub mod Lists
use fusion_index.Prelude.{ℕ, Option, List, Text, map}
use fusion_index.Semver.{Semver}
use fusion_index.Db.{DbResult, ok, err, no_rows, Artifact, Version, File}
use fusion_index.Db.Artifacts.{
  get_registry_artifact, get_registry_artifact_by_name, create_registry_artifact,
  delete_registry_artifact,
}
use fusion_index.Db.Files.{list_files_by_artifact_id}
use fusion_index.Db.Filtered.{semver_of}
use fusion_index.Session.{World, run, begin, commit, remove_all}
use fusion_index.Handlers.{
  Step, next, failed, Handler, ◌>>=◌, ◌>>◌, pure, require, do_always, ◌or◌, internal_error,
  not_found_or_internal, deferring_rollback, file_object_path,
}
use fusion_index.Handlers.Params.{path_id}

pub record CreateArtifactRequest : Type 0 where
  pub full_name : Text
  pub description : Option Text

-- A name that is taken is answered with 409, and one that is not found is free.
unfoldable pub free_name : DbResult Artifact → Step (Unit {0})
free_name (ok a) = failed 409
free_name (err no_rows) = next tt
free_name (err e) = failed 500

unfoldable pub require_free : Text → Handler (Unit {0})
unfolding free_name
require_free name w = let (r, w') = run (get_registry_artifact_by_name name) w in (free_name r, w')

-- The statements of the transaction.
unfoldable pub insert_artifact : CreateArtifactRequest → Handler Artifact
unfolding require_free
insert_artifact req = do
  require_free req.full_name
  a ← run (create_registry_artifact req.full_name req.description) or internal_error
  commit or internal_error
  pure a

-- Create, which answers 201; `req` is `none` where the body does not bind.
unfoldable pub create_artifact : Option CreateArtifactRequest → Handler Artifact
unfolding insert_artifact
create_artifact req = do
  req ← require 400 req
  begin or internal_error
  deferring_rollback (insert_artifact req)

-- The objects of the files that were listed.
unfoldable pub artifact_paths : ℕ → List (File × Version) → List Text
artifact_paths id files = map (λ r. file_object_path r.0 id (semver_of r.1)) files

-- The statements of the transaction.
unfoldable pub drop_rows : ℕ → Handler (List (File × Version))
drop_rows id = do
  files ← run (list_files_by_artifact_id id) or internal_error
  run (delete_registry_artifact id) or internal_error
  commit or internal_error
  pure files

-- Rows first, objects after the commit.
unfoldable pub drop_artifact : ℕ → Handler (Unit {0})
unfolding drop_rows artifact_paths
drop_artifact id = do files ← drop_rows id; do_always (remove_all (artifact_paths id files))

-- Delete
unfoldable pub delete_artifact : Text → Handler (Unit {0})
unfolding drop_artifact
delete_artifact raw_id = do
  id ← require 400 (path_id raw_id)
  _ ← run (get_registry_artifact id) or not_found_or_internal
  begin or internal_error
  deferring_rollback (drop_artifact id)
