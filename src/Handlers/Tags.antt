-- ===== src/Handlers/Tags.antt =====
-- internal/api/handlers/tags.go: put and delete of one tag.
pub mod Put
pub mod Keep
pub mod Lists
pub mod Pages
use fusion_index.Prelude.{Option, Text}
use fusion_index.Semver.{parse}
use fusion_index.Db.{Tag}
use fusion_index.Db.Artifacts.{get_registry_artifact}
use fusion_index.Db.Versions.{get_artifact_version}
use fusion_index.Db.Tags.{upsert_artifact_tag, get_artifact_tag, delete_artifact_tag}
use fusion_index.Session.{run}
use fusion_index.Handlers.{
  Handler, ◌>>=◌, ◌>>◌, require, ◌or◌, internal_error, not_found_or_internal,
}
use fusion_index.Handlers.Params.{path_id}

-- Put; `version` is `none` where the body does not bind.
unfoldable pub put_tag : Text → Text → Option Text → Handler Tag
put_tag raw_id tag version = do
  artifact_id ← require 400 (path_id raw_id)
  raw ← require 400 version
  sv ← require 400 (parse raw)
  _ ← run (get_registry_artifact artifact_id) or not_found_or_internal
  v ← run (get_artifact_version artifact_id sv) or not_found_or_internal
  run (upsert_artifact_tag artifact_id tag v.id) or internal_error

-- Delete
unfoldable pub delete_tag : Text → Text → Handler (Unit {0})
delete_tag raw_id tag = do
  artifact_id ← require 400 (path_id raw_id)
  _ ← run (get_artifact_tag artifact_id tag) or not_found_or_internal
  run (delete_artifact_tag artifact_id tag) or internal_error
