-- ===== src/Router.antt =====
-- internal/api/router.go: the routes with their middleware. Which route a path matches is up to gin and is
-- the parameter `match`.
pub mod Access
use fusion_index.Prelude.{
  ℕ, Bool, true, false, Option, none, some, List, [], ◌∷◌, Text, codes, if◌then◌else◌,
}
use fusion_index.Config.{Config}
use fusion_index.Auth.{Cluster, Verdict, passed, aborted, authenticate}

-- The method of a request.
pub data Verb : Type 0 where
  get post put delete options other : Verb

-- The functions that the routes name.
pub data Endpoint : Type 0 where
  open_api_spec swagger health_live : Endpoint
  health_ready metrics_get artifacts_list : Endpoint
  artifacts_create artifacts_get artifacts_update : Endpoint
  artifacts_delete versions_list versions_create : Endpoint
  versions_bulk_delete versions_get versions_delete : Endpoint
  tags_list_all tags_put tags_delete : Endpoint
  files_list files_upload files_get : Endpoint
  files_download files_delete versions_list_all : Endpoint
  types_list types_create types_get : Endpoint
  types_update types_delete retention_list : Endpoint
  retention_get_for_artifact retention_put_for_artifact retention_delete_for_artifact : Endpoint
  retention_get_for_type retention_put_for_type retention_delete_for_type : Endpoint
  types_list_for_artifact types_assign types_unassign : Endpoint
  admin_list_empty_artifacts admin_delete_empty_artifacts admin_bulk_delete_versions : Endpoint
  admin_list_versions_without_files admin_delete_versions_without_files
        admin_list_artifacts_without_files :
      Endpoint
  admin_delete_artifacts_without_files admin_list_incomplete_files admin_delete_incomplete_files :
      Endpoint
  admin_list_unused_types admin_delete_unused_types : Endpoint

pub record Route : Type 0 where
  pub verb : Verb
  pub pattern : Text
  pub secured : Bool
  pub endpoint : Endpoint

-- A route of the router itself, and one of the group under /api/v1, which the authentication guards.
abbrev open_route : Verb → Text → Endpoint → Route
open_route v p e = record { verb = v; pattern = p; secured = false; endpoint = e }

abbrev v1_route : Verb → Text → Endpoint → Route
v1_route v p e = record { verb = v; pattern = p; secured = true; endpoint = e }

-- NewRouter
unfoldable pub routes : List Route
routes =
    open_route get (codes "/api/openapi.json") open_api_spec
    ∷ open_route get (codes "/swagger/") swagger
    ∷ open_route get (codes "/q/health/live") health_live
    ∷ open_route get (codes "/q/health/ready") health_ready
    ∷ open_route get (codes "/q/metrics") metrics_get
    ∷ v1_route get (codes "/api/v1/artifacts") artifacts_list
    ∷ v1_route post (codes "/api/v1/artifacts") artifacts_create
    ∷ v1_route get (codes "/api/v1/artifacts/:id") artifacts_get
    ∷ v1_route put (codes "/api/v1/artifacts/:id") artifacts_update
    ∷ v1_route delete (codes "/api/v1/artifacts/:id") artifacts_delete
    ∷ v1_route get (codes "/api/v1/artifacts/:id/versions") versions_list
    ∷ v1_route post (codes "/api/v1/artifacts/:id/versions") versions_create
    ∷ v1_route delete (codes "/api/v1/artifacts/:id/versions") versions_bulk_delete
    ∷ v1_route get (codes "/api/v1/artifacts/:id/versions/:semver") versions_get
    ∷ v1_route delete (codes "/api/v1/artifacts/:id/versions/:semver") versions_delete
    ∷ v1_route get (codes "/api/v1/tags") tags_list_all
    ∷ v1_route put (codes "/api/v1/artifacts/:id/tags/:tag") tags_put
    ∷ v1_route delete (codes "/api/v1/artifacts/:id/tags/:tag") tags_delete
    ∷ v1_route get (codes "/api/v1/artifacts/:id/versions/:semver/files") files_list
    ∷ v1_route post (codes "/api/v1/artifacts/:id/versions/:semver/files") files_upload
    ∷ v1_route get (codes "/api/v1/artifacts/:id/versions/:semver/files/:fileId") files_get
    ∷ v1_route get (codes "/api/v1/artifacts/:id/versions/:semver/files/:fileId/download")
        files_download
    ∷ v1_route delete (codes "/api/v1/artifacts/:id/versions/:semver/files/:fileId") files_delete
    ∷ v1_route get (codes "/api/v1/versions") versions_list_all
    ∷ v1_route get (codes "/api/v1/types") types_list
    ∷ v1_route post (codes "/api/v1/types") types_create
    ∷ v1_route get (codes "/api/v1/types/:typeId") types_get
    ∷ v1_route put (codes "/api/v1/types/:typeId") types_update
    ∷ v1_route delete (codes "/api/v1/types/:typeId") types_delete
    ∷ v1_route get (codes "/api/v1/retention-policies") retention_list
    ∷ v1_route get (codes "/api/v1/artifacts/:id/retention") retention_get_for_artifact
    ∷ v1_route put (codes "/api/v1/artifacts/:id/retention") retention_put_for_artifact
    ∷ v1_route delete (codes "/api/v1/artifacts/:id/retention") retention_delete_for_artifact
    ∷ v1_route get (codes "/api/v1/types/:typeId/retention") retention_get_for_type
    ∷ v1_route put (codes "/api/v1/types/:typeId/retention") retention_put_for_type
    ∷ v1_route delete (codes "/api/v1/types/:typeId/retention") retention_delete_for_type
    ∷ v1_route get (codes "/api/v1/artifacts/:id/types") types_list_for_artifact
    ∷ v1_route put (codes "/api/v1/artifacts/:id/types/:typeId") types_assign
    ∷ v1_route delete (codes "/api/v1/artifacts/:id/types/:typeId") types_unassign
    ∷ v1_route get (codes "/api/v1/admin/artifacts/empty") admin_list_empty_artifacts
    ∷ v1_route delete (codes "/api/v1/admin/artifacts/empty") admin_delete_empty_artifacts
    ∷ v1_route delete (codes "/api/v1/admin/versions") admin_bulk_delete_versions
    ∷ v1_route get (codes "/api/v1/admin/versions/empty") admin_list_versions_without_files
    ∷ v1_route delete (codes "/api/v1/admin/versions/empty") admin_delete_versions_without_files
    ∷ v1_route get (codes "/api/v1/admin/artifacts/no-files") admin_list_artifacts_without_files
    ∷ v1_route delete (codes "/api/v1/admin/artifacts/no-files")
        admin_delete_artifacts_without_files
    ∷ v1_route get (codes "/api/v1/admin/files/incomplete") admin_list_incomplete_files
    ∷ v1_route delete (codes "/api/v1/admin/files/incomplete") admin_delete_incomplete_files
    ∷ v1_route get (codes "/api/v1/admin/types/unused") admin_list_unused_types
    ∷ v1_route delete (codes "/api/v1/admin/types/unused") admin_delete_unused_types
    ∷ []

pub record HttpRequest : Type 0 where
  pub verb : Verb
  pub path : Text
  pub authorization : Text

-- An endpoint is reached, under the name of a user if the request was reviewed, or the request ends with a
-- status.
pub data Served : Type 0 where
  reached : Endpoint → Option Text → Served
  ended : ℕ → Served

unfoldable pub guarded : Endpoint → Verdict → Served
guarded e (passed user) = reached e user
guarded e (aborted status) = ended status

module _ (match : List Route → Verb → Text → Option Route) (cfg : Config) (cluster : Cluster) where
  unfoldable pub dispatch : Option Route → Text → Served
  unfolding guarded authenticate
  dispatch none header = ended 404
  dispatch (some r) header =
      if r.secured
      then guarded r.endpoint (authenticate cfg cluster header)
      else reached r.endpoint none

  -- corsMiddleware answers every OPTIONS request; all others go on.
  unfoldable pub serve : HttpRequest → Served
  unfolding dispatch routes
  serve r = elim r.verb [
    | options ↦ ended 204
    | v ↦ dispatch (match routes v r.path) r.authorization
  ]
