-- ===== src/Safety/Download.antt =====
-- A download of internal/api/handlers/files.go after an upload.
use fusion_index.Prelude.{ℕ, ◌^◌, ◌<◌, ◌%◌, ◌≡◌, refl, ap, some, [], Text, arith, find, ==_refl}
use fusion_index.Strconv.{print, int64_cutoff}
use fusion_index.Strconv.RoundTrip.{parse_int-print}
use fusion_index.Semver.{Semver, parse}
use fusion_index.Db.{Version, File, available, ok, one_row}
use fusion_index.Db.Versions.{at_semver, get_artifact_version}
use fusion_index.Db.Files.{find_file, get_artifact_file}
use fusion_index.Session.{
  Object, find_object, World, run, next_fate, perform, retrieve, retrieve_fate, retrieved,
}
use fusion_index.Handlers.{next}
use fusion_index.Handlers.Params.{path_id, to_bits}
use fusion_index.Handlers.Files.{
  UploadForm, Resolved, resolve_version, file_of_version, is_available, download,
}
use fusion_index.Safety.Upload.Publish.{IsPublished}

pub path_id-print : (n : ℕ) → n < 2 ^ 63 → path_id (print n) ≡ some n
unfolding path_id to_bits
path_id-print n h =
    let same : n % 2 ^ 64 ≡ n = omega (arith, h) in
    rw (parse_int-print int64_cutoff n h, path_id) (ap some same)

-- With no call failing a version is found.
pub resolve_version-found :
    (u : World) (raw_id raw_semver : Text) (a : ℕ) (sv : Semver) (v : Version)
    → u.fates ≡ []
    → path_id raw_id ≡ some a
    → parse raw_semver ≡ some sv
    → find (at_semver a sv) u.db.versions ≡ some v
    → resolve_version raw_id raw_semver u
      ≡ (next (record { artifact_id = a; semver = sv; version = v }), u)
unfolding resolve_version run next_fate perform get_artifact_version one_row
resolve_version-found u raw_id raw_semver a sv v calm ha hs hv = rw (ha, hs, calm, hv) refl

module _ (f : File) (u : World) (row : find_file f.id u.db ≡ some f) (calm : u.fates ≡ [])
    (calm_storage : u.storage_fates ≡ []) where
  file_read :
      (r : Resolved)
      → f.id < 2 ^ 63
      → f.version_id ≡ r.version.id
      → file_of_version (print f.id) r u ≡ (next f, u)
  unfolding file_of_version run next_fate perform get_artifact_file one_row
  file_read r small e = rw (path_id-print f.id small, calm, row, e, ==_refl r.version.id) refl

  -- The object of a file is what storage answers with.
  content_read :
      (o : Object)
      → find_object f.storage_path u.objects ≡ some o
      → (retrieve f.storage_path u).0 ≡ ok o.content
  unfolding retrieve next_fate retrieve_fate retrieved
  content_read o there = rw (calm_storage, there) refl

  -- An AVAILABLE file of a version is downloaded with the content of its object.
  pub download-content :
      (raw_id raw_semver : Text) (a : ℕ) (sv : Semver) (v : Version) (o : Object)
      → f.status ≡ available
      → find_object f.storage_path u.objects ≡ some o
      → path_id raw_id ≡ some a
      → parse raw_semver ≡ some sv
      → find (at_semver a sv) u.db.versions ≡ some v
      → f.version_id ≡ v.id
      → f.id < 2 ^ 63
      → (download raw_id raw_semver (print f.id) u).0 ≡ next o.content
  unfolding download is_available
  download-content raw_id raw_semver a sv v o status there ha hs hv e small =
      let r : Resolved = record { artifact_id = a; semver = sv; version = v } in
      rw
        (
          resolve_version-found u raw_id raw_semver a sv v calm ha hs hv,
          file_read r small e,
          status,
          content_read o there,
        )
        refl

-- A file that an upload has published is downloaded, by its id under the version that it belongs
-- to, with exactly the content of the upload, where no call fails.
pub download-IsPublished :
    (g : UploadForm) (f : File) (u : World) (raw_id raw_semver : Text) (a : ℕ) (sv : Semver)
    (v : Version)
    → IsPublished g f u
    → u.fates ≡ []
    → u.storage_fates ≡ []
    → path_id raw_id ≡ some a
    → parse raw_semver ≡ some sv
    → find (at_semver a sv) u.db.versions ≡ some v
    → f.version_id ≡ v.id
    → f.id < 2 ^ 63
    → (download raw_id raw_semver (print f.id) u).0 ≡ next g.content
download-IsPublished g f u raw_id raw_semver a sv v h calm calm_storage ha hs hv e small =
    download-content f u h.row calm calm_storage raw_id raw_semver a sv v _ h.status h.object ha hs
      hv e small
