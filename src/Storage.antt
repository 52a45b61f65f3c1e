-- ===== src/Storage.antt =====
-- internal/storage: the two backends of the interface Storage, s3.go and filesystem.go, and the
-- choice between them in cmd/server/main.go. path.Join and filepath.Join are parameters. The objects of
-- the world are those of the bucket, or the files of the file system.
pub mod Refines
pub mod Backends
use fusion_index.Prelude.{ℕ, Bool, Option, none, some, List, Text, codes, text_eq, if◌then◌else◌}
use fusion_index.Config.{Config}
use fusion_index.Db.{unavailable, DbResult, ok, err}
use fusion_index.Session.{
  Fate, served, refused, lost, World, next_fate, Call, put_object, without, store, retrieve, remove,
}
use fusion_index.Migration.{trim, join_prefix}

-- The interface Storage. A store answers with the path to keep in the database.
pub record Storage : Type 0 where
  pub store_at : Text → Text → Call Text
  pub retrieve_at : Text → Call Text
  pub delete_at : Text → Call (Unit {0})

-- DeleteObject and os.Remove, whose answer for what is not there is no error.
unfoldable pub delete_fate : Fate → Text → World → DbResult (Unit {0}) × World
unfolding without
delete_fate served key w = (ok tt, record w { objects = without key w.objects })
delete_fate refused key w = (err unavailable, w)
delete_fate (lost n) key w = (err unavailable, record w { objects = without key w.objects })

unfoldable pub delete_object : Text → Call (Unit {0})
unfolding next_fate delete_fate
delete_object key w =
    let (fate, rest) = next_fate w.storage_fates in
    delete_fate fate key (record w { storage_fates = rest })

-- PutObject puts all of the object or nothing.
unfoldable pub put_fate : Fate → Text → Text → World → DbResult (Unit {0}) × World
unfolding put_object
put_fate served key content w = (ok tt, record w { objects = put_object key content w.objects })
put_fate refused key content w = (err unavailable, w)
put_fate (lost n) key content w =
    (err unavailable, record w { objects = put_object key content w.objects })

unfoldable pub put_whole : Text → Text → Call (Unit {0})
unfolding next_fate put_fate
put_whole key content w =
    let (fate, rest) = next_fate w.storage_fates in
    put_fate fate key content (record w { storage_fates = rest })

-- The path that was suggested, where the call has no error.
unfoldable pub suggested : {A : Type 0} → Text → DbResult A × World → DbResult Text × World
suggested path (ok a, w) = (ok path, w)
suggested path (err e, w) = (err e, w)

pub record S3Storage : Type 0 where
  pub prefix : Text

-- NewS3Storage
unfoldable pub new_s3_storage : Text → S3Storage
unfolding trim
new_s3_storage prefix = record { prefix = trim b'/' prefix }

module _ (join : Text → Text → Text) (s : S3Storage) where
  -- key
  unfoldable pub s3_key : Text → Text
  unfolding join_prefix
  s3_key path = join_prefix join s.prefix path

  unfoldable pub s3_store : Text → Text → Call Text
  unfolding s3_key put_whole suggested
  s3_store path content w = suggested path (put_whole (s3_key path) content w)

  unfoldable pub s3_retrieve : Text → Call Text
  unfolding s3_key
  s3_retrieve path = retrieve (s3_key path)

  unfoldable pub s3_delete : Text → Call (Unit {0})
  unfolding s3_key delete_object
  s3_delete path = delete_object (s3_key path)

  unfoldable pub s3_storage : Storage
  unfolding s3_store s3_retrieve s3_delete
  s3_storage = record { store_at = s3_store; retrieve_at = s3_retrieve; delete_at = s3_delete }

pub record FilesystemStorage : Type 0 where
  pub root : Text

module _ (file_join : Text → Text → Text) (s : FilesystemStorage) where
  -- resolve
  unfoldable pub fs_resolve : Text → Text
  fs_resolve path = file_join s.root path

  -- A copy that fails leaves what it has written.
  unfoldable pub fs_store : Text → Text → Call Text
  unfolding fs_resolve store suggested
  fs_store path content w = suggested path (store (fs_resolve path) content w)

  unfoldable pub fs_retrieve : Text → Call Text
  unfolding fs_resolve
  fs_retrieve path = retrieve (fs_resolve path)

  unfoldable pub fs_delete : Text → Call (Unit {0})
  unfolding fs_resolve delete_object
  fs_delete path = delete_object (fs_resolve path)

  unfoldable pub filesystem_storage : Storage
  unfolding fs_store fs_retrieve fs_delete
  filesystem_storage = record {
    store_at = fs_store;
    retrieve_at = fs_retrieve;
    delete_at = fs_delete;
  }

module _ (join file_join : Text → Text → Text) where
  -- buildStorage; `has_client` is whether the S3 client is built.
  unfoldable pub build_storage : Bool → Config → Option Storage
  unfolding s3_storage new_s3_storage filesystem_storage text_eq
  build_storage has_client cfg =
      if text_eq cfg.storage_backend (codes "S3")
      then (if has_client then some (s3_storage join (new_s3_storage cfg.s3_prefix)) else none)
      else some (filesystem_storage file_join (record { root = cfg.storage_fs_root }))
