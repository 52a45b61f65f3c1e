-- ===== src/Handlers/Types.antt =====
-- internal/api/handlers/types.go: the types, and their assignment to artifacts. A name is ordered
-- by the collation of the database, the parameter `name_before`.
pub mod Assign
use fusion_index.Prelude.{ℕ, Bool, Option, List, Text}
use fusion_index.Db.{ArtifactType, DbError, unique_violation, no_rows}
use fusion_index.Db.Artifacts.{get_registry_artifact}
use fusion_index.Db.Types.{
  create_artifact_type, get_artifact_type, update_artifact_type, delete_artifact_type,
  list_artifact_types, list_artifact_types_by_artifact_id, assign_artifact_type,
  get_artifact_type_assignment, remove_artifact_type,
}
use fusion_index.Session.{run}
use fusion_index.Handlers.{
  Handler, ◌>>=◌, ◌>>◌, pure, require, ◌or◌, internal_error, not_found_or_internal,
  conflict_or_internal,
}
use fusion_index.Handlers.Params.{path_id, parse_optional_bool}

-- CreateTypeRequest and UpdateTypeRequest
pub record TypeRequest : Type 0 where
  pub name : Text
  pub description : Option Text

-- The statuses of Update: 409 for a name that is taken, 404 for a type that is not there.
unfoldable pub update_status : DbError → ℕ
update_status unique_violation = 409
update_status no_rows = 404
update_status _ = 500

-- List
unfoldable pub list_types : (Text → Text → Bool) → Text → Handler (List ArtifactType)
list_types name_before unused = do
  unused ← require 400 (parse_optional_bool unused)
  run (list_artifact_types name_before unused) or internal_error

-- Create, which answers 201; `req` is `none` where the body does not bind.
unfoldable pub create_type : Option TypeRequest → Handler ArtifactType
create_type req = do
  req ← require 400 req
  run (create_artifact_type req.name req.description) or conflict_or_internal

-- Get
unfoldable pub get_type : Text → Handler ArtifactType
get_type raw_type_id = do
  id ← require 400 (path_id raw_type_id)
  run (get_artifact_type id) or not_found_or_internal

-- Update
unfoldable pub update_type : Text → Option TypeRequest → Handler ArtifactType
unfolding update_status
update_type raw_type_id req = do
  id ← require 400 (path_id raw_type_id)
  req ← require 400 req
  run (update_artifact_type id req.name req.description) or update_status

-- Delete
unfoldable pub delete_type : Text → Handler (Unit {0})
delete_type raw_type_id = do
  id ← require 400 (path_id raw_type_id)
  _ ← run (get_artifact_type id) or not_found_or_internal
  run (delete_artifact_type id) or internal_error

-- ListForArtifact
unfoldable pub list_types_for_artifact : (Text → Text → Bool) → Text → Handler (List ArtifactType)
list_types_for_artifact name_before raw_id = do
  id ← require 400 (path_id raw_id)
  _ ← run (get_registry_artifact id) or not_found_or_internal
  run (list_artifact_types_by_artifact_id name_before id) or internal_error

-- Assign, which answers with the type
unfoldable pub assign_type : Text → Text → Handler ArtifactType
assign_type raw_id raw_type_id = do
  artifact_id ← require 400 (path_id raw_id)
  type_id ← require 400 (path_id raw_type_id)
  _ ← run (get_registry_artifact artifact_id) or not_found_or_internal
  t ← run (get_artifact_type type_id) or not_found_or_internal
  run (assign_artifact_type artifact_id type_id) or internal_error
  pure t

-- Unassign
unfoldable pub unassign_type : Text → Text → Handler (Unit {0})
unassign_type raw_id raw_type_id = do
  artifact_id ← require 400 (path_id raw_id)
  type_id ← require 400 (path_id raw_type_id)
  _ ← run (get_artifact_type_assignment artifact_id type_id) or not_found_or_internal
  run (remove_artifact_type artifact_id type_id) or internal_error
