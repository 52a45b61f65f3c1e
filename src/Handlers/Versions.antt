-- ===== src/Handlers/Versions.antt =====
-- internal/api/handlers/versions.go: create, get and delete of one version.
pub mod Steps
pub mod Create
pub mod Lists
pub mod Listed
pub mod Pages
use fusion_index.Prelude.{ℕ, Option, List, [], ◌∷◌, map, Text}
use fusion_index.Semver.{Semver, parse}
use fusion_index.Db.{DbResult, ok, err, Version, File, Tag}
use fusion_index.Db.Artifacts.{get_registry_artifact}
use fusion_index.Db.Versions.{
  create_artifact_version, get_artifact_version, delete_artifact_version,
}
use fusion_index.Db.Files.{list_artifact_files}
use fusion_index.Db.Tags.{upsert_artifact_tag, list_artifact_tags_by_version_id}
use fusion_index.Session.{World, run, begin, commit, remove_all}
use fusion_index.Handlers.{
  Handler, ◌>>=◌, ◌>>◌, pure, require, do_always, ◌or◌, internal_error, not_found_or_internal,
  conflict_or_internal, deferring_rollback, file_object_path,
}
use fusion_index.Handlers.Params.{path_id}

pub record CreateVersionRequest : Type 0 where
  pub version : Text
  pub config : Option Text
  pub tags : List Text

-- The loop over req.Tags
unfoldable pub upsert_tags : ℕ → ℕ → List Text → Handler (List Tag)
upsert_tags artifact_id version_id [] = pure []
upsert_tags artifact_id version_id (tag ∷ tags) = do
  t ← run (upsert_artifact_tag artifact_id tag version_id) or internal_error
  rest ← upsert_tags artifact_id version_id tags
  pure (t ∷ rest)

-- The statements of the transaction.
unfoldable pub insert_version : ℕ → Semver → CreateVersionRequest → Handler (Version × List Tag)
unfolding upsert_tags
insert_version artifact_id sv req = do
  _ ← run (get_registry_artifact artifact_id) or not_found_or_internal
  version ← run (create_artifact_version artifact_id sv req.config) or conflict_or_internal
  tags ← upsert_tags artifact_id version.id req.tags
  commit or internal_error
  pure (version, tags)

-- Create, which answers 201; `req` is `none` where the body does not bind.
unfoldable pub create_version : Text → Option CreateVersionRequest → Handler (Version × List Tag)
unfolding insert_version
create_version raw_id req = do
  artifact_id ← require 400 (path_id raw_id)
  req ← require 400 req
  sv ← require 400 (parse req.version)
  begin or internal_error
  deferring_rollback (insert_version artifact_id sv req)

-- Get
unfoldable pub get_version : Text → Text → Handler (Version × List Tag)
get_version raw_id raw_semver = do
  artifact_id ← require 400 (path_id raw_id)
  sv ← require 400 (parse raw_semver)
  version ← run (get_artifact_version artifact_id sv) or not_found_or_internal
  tags ← run (list_artifact_tags_by_version_id version.id) or internal_error
  pure (version, tags)

-- The files of a version are removed from storage if they can be listed.
unfoldable pub remove_files : ℕ → Semver → DbResult (List File) × World → World
remove_files artifact_id sv (ok files, w) =
    remove_all (map (λ f. file_object_path f artifact_id sv) files) w
remove_files artifact_id sv (err e, w) = w

unfoldable pub clean_storage : ℕ → Semver → ℕ → World → World
unfolding remove_files
clean_storage artifact_id sv version_id w =
    remove_files artifact_id sv (run (list_artifact_files version_id) w)

-- Delete
unfoldable pub delete_version : Text → Text → Handler (Unit {0})
unfolding clean_storage
delete_version raw_id raw_semver = do
  artifact_id ← require 400 (path_id raw_id)
  sv ← require 400 (parse raw_semver)
  version ← run (get_artifact_version artifact_id sv) or not_found_or_internal
  do_always (clean_storage artifact_id sv version.id)
  run (delete_artifact_version version.id) or internal_error
