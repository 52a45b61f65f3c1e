-- ===== src/Migration/Command.antt =====
-- cmd/server/migrate.go: the command that copies the objects where the configured prefix differs from
-- the one that a marker ConfigMap records.
use fusion_index.Prelude.{
  Bool, true, false, not, Option, none, some, List, [], ◌∷◌, Text, codes, text_eq, if◌then◌else◌,
}
use fusion_index.Config.{Config}
use fusion_index.Db.{Db, DbResult, ok, err}
use fusion_index.Db.Cleanup.{list_available_s3_file_paths}
use fusion_index.Session.{Fate, served, refused, lost}
use fusion_index.Kubernetes.{
  Api, Fetched, failed, missing, fetched, get_config_map_data, create_config_map_data,
  update_config_map_data,
}
use fusion_index.Migration.{Bucket, Migrated, done, stopped, migrate_prefix}

-- What the command reads from its pod and reaches: a namespace, a token, an HTTP client for the API
-- server, the database and S3.
pub record Pod : Type 0 where
  pub namespace : Option Text
  pub marker_name : Text
  pub has_http : Bool
  pub token : Option Text
  pub has_pool : Bool
  pub query_fate : Fate
  pub has_client : Bool

-- s3MigrationPrefixKey
abbrev pub prefix_key : Text
prefix_key = codes "prefix"

abbrev pub configured : Config → List (Text × Text)
configured cfg = (prefix_key, cfg.s3_prefix) ∷ []

-- data[s3MigrationPrefixKey], empty where there is no such key
unfoldable pub prefix_of : List (Text × Text) → Text
prefix_of [] = []
prefix_of ((k, v) ∷ rest) = if text_eq k prefix_key then v else prefix_of rest

unfoldable pub paths_of : DbResult (List Text) → List Text
paths_of (ok paths) = paths
paths_of (err e) = []

-- The paths of the files that the table has on S3.
unfoldable pub s3_paths : Db → List Text
unfolding list_available_s3_file_paths paths_of
s3_paths db = paths_of (list_available_s3_file_paths 0 db).0

unfoldable pub read_paths : Fate → Db → Option (List Text)
unfolding s3_paths
read_paths served db = some (s3_paths db)
read_paths refused db = none
read_paths (lost n) db = none

module _ {S : Type 0} (api : Api S) (join : Text → Text → Text) (cfg : Config) (pod : Pod)
    (db : Db) where
  -- Whether the command ends without exit status 1, with what it leaves of the API server and the
  -- bucket.
  abbrev pub Ended : Type 0
  Ended = Bool × S × Bucket

  abbrev pub exit : S → Bucket → Ended
  exit s b = (false, s, b)

  -- The part after the copy.
  unfoldable pub record_prefix : Text → Text → Text → Migrated × Bucket → S → Ended
  unfolding update_config_map_data
  record_prefix token namespace version (done copied skipped, b) s =
      let (success, s') =
        update_config_map_data api token namespace pod.marker_name version (configured cfg) s in
      (success, s', b)
  record_prefix token namespace version (stopped copied skipped, b) s = exit s b

  unfoldable pub migrate_paths : Text → Text → Text → Text → Option (List Text) → S → Bucket → Ended
  unfolding record_prefix migrate_prefix
  migrate_paths token namespace version old_prefix none s b = exit s b
  migrate_paths token namespace version old_prefix (some paths) s b =
      if not pod.has_client
      then exit s b
      else record_prefix token namespace version
          (migrate_prefix join old_prefix cfg.s3_prefix paths b) s

  -- The part after the marker is read.
  unfoldable pub with_marker : Text → Text → Fetched → S → Bucket → Ended
  unfolding migrate_paths read_paths prefix_of create_config_map_data
  with_marker token namespace failed s b = exit s b
  with_marker token namespace missing s b =
      let (success, s') =
        create_config_map_data api token namespace pod.marker_name (configured cfg) s in
      (success, s', b)
  with_marker token namespace (fetched entries version) s b =
      if text_eq (prefix_of entries) cfg.s3_prefix
      then (true, s, b)
      else if not pod.has_pool
      then exit s b
      else migrate_paths token namespace version (prefix_of entries) (read_paths pod.query_fate db)
          s b

  unfoldable pub read_marker : Text → Option Text → S → Bucket → Ended
  unfolding with_marker get_config_map_data
  read_marker namespace none s b = exit s b
  read_marker namespace (some token) s b =
      let (marker, s') = get_config_map_data api token namespace pod.marker_name s in
      with_marker token namespace marker s' b

  unfoldable pub in_namespace : Option Text → S → Bucket → Ended
  unfolding read_marker text_eq
  in_namespace none s b = exit s b
  in_namespace (some namespace) s b =
      if text_eq pod.marker_name []
      then exit s b
      else if not pod.has_http
      then exit s b
      else read_marker namespace pod.token s b

  -- runMigrateS3Prefix
  unfoldable pub run_migrate_s3_prefix : S → Bucket → Ended
  unfolding in_namespace text_eq
  run_migrate_s3_prefix s b =
      if not (text_eq cfg.storage_backend (codes "S3"))
      then (true, s, b)
      else in_namespace pod.namespace s b
