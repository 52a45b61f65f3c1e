-- ===== src/Safety/Uploads.antt =====
-- An upload of internal/api/handlers/files.go with no failing call, and the download after it.
use fusion_index.Prelude.{
  ℕ, ◌^◌, ◌<◌, ◌≡◌, refl, true, false, some, [], Text, codes, arith, length, map, find, exists,
  exists-of_found, ◌==◌, ==_refl,
}
use fusion_index.Strconv.{print}
use fusion_index.Semver.{Semver, parse}
use fusion_index.Db.{Db, Version, File, available, ok}
use fusion_index.Db.Versions.{at_semver}
use fusion_index.Db.Files.{
  CreateArtifactFileParams, create_artifact_file, new_file, next_file, insert_file, named,
  find_file, update_artifact_file_stored, stored,
}
use fusion_index.Session.{World, put_object, next_fate, run, perform, store, store_fate}
use fusion_index.Session.Objects.{find_object-put_object_self}
use fusion_index.Handlers.{next, file_storage_path}
use fusion_index.Handlers.Params.{path_id}
use fusion_index.Handlers.Files.{UploadForm, finish_upload, content_type_of, upload, download}
use fusion_index.Safety.Download.{resolve_version-found, download-content}

module _ (backend : Text) (g : UploadForm) (a : ℕ) (sv : Semver) (v : Version) (w : World) where
  abbrev params : CreateArtifactFileParams
  params = record {
    version_id = v.id;
    name = g.filename;
    content_type = some (content_type_of g);
    storage_backend = backend;
    storage_path = codes "pending";
  }

  abbrev row : File
  row = new_file params w.now w.db

  abbrev path : Text
  path = file_storage_path a sv w.db.sequences.file g.filename

  abbrev published : File
  published = record row {
    storage_path = path;
    size_bytes = some (length g.content);
    status = available;
    updated_at = w.now;
  }

  abbrev tables_after : Db
  tables_after = record (insert_file row w.db) {
    files =
        map (stored w.db.sequences.file path (length g.content) w.now) (insert_file row w.db).files;
  }

  abbrev world_after : World
  world_after = record w {
    db = tables_after;
    objects = put_object path g.content w.objects;
    fates = [];
    storage_fates = [];
  }

  created :
      exists (named v.id g.filename) w.db.files ≡ false
      → exists (λ u. u.id == v.id) w.db.versions ≡ true
      → create_artifact_file params w.now w.db ≡ (ok row, insert_file row w.db)
  unfolding create_artifact_file
  created free there = rw (free, there) refl

  found_after : find_file w.db.sequences.file tables_after ≡ some published
  unfolding find_file find insert_file next_file stored new_file
  found_after = ground (arith, ==_refl w.db.sequences.file)

  finished :
      finish_upload
        (record { artifact_id = a; semver = sv; version = v })
        g
        row
        (record w { db = insert_file row w.db; fates = []; storage_fates = [] })
      ≡ (next published, world_after)
  unfolding finish_upload run next_fate perform store store_fate update_artifact_file_stored
      new_file
  finished = rw found_after refl

  uploaded_calm :
      (raw_id raw_semver : Text)
      → w.fates ≡ []
      → w.storage_fates ≡ []
      → path_id raw_id ≡ some a
      → parse raw_semver ≡ some sv
      → find (at_semver a sv) w.db.versions ≡ some v
      → exists (named v.id g.filename) w.db.files ≡ false
      → upload backend raw_id raw_semver (some g) w ≡ (next published, world_after)
  unfolding upload run next_fate perform
  uploaded_calm raw_id raw_semver calm calm_storage ha hs found free =
      rw
        (
          resolve_version-found w raw_id raw_semver a sv v calm ha hs found,
          calm,
          calm_storage,
          created free (
              exists-of_found (at_semver a sv) (λ u. u.id == v.id) w.db.versions v found
                (==_refl v.id)),
        )
        finished

-- Where no call fails, an upload of a name that the version does not have yet succeeds, with an AVAILABLE
-- row of the name and the size of the upload, and a download of the id of that row from the world that the
-- upload leaves then gives exactly the content; the id is below 2^63.
pub upload-download :
    (backend raw_id raw_semver : Text) (g : UploadForm) (a : ℕ) (sv : Semver) (v : Version)
    (w : World)
    → w.fates ≡ []
    → w.storage_fates ≡ []
    → path_id raw_id ≡ some a
    → parse raw_semver ≡ some sv
    → find (at_semver a sv) w.db.versions ≡ some v
    → exists (named v.id g.filename) w.db.files ≡ false
    → w.db.sequences.file < 2 ^ 63
    → (f : File) × (w' : World) × (upload backend raw_id raw_semver (some g) w ≡ (next f, w'))
      × (f.status ≡ available)
      × (f.name ≡ g.filename)
      × (f.size_bytes ≡ some (length g.content))
      × ((download raw_id raw_semver (print f.id) w').0 ≡ next g.content)
unfolding new_file insert_file next_file
upload-download backend raw_id raw_semver g a sv v w calm calm_storage ha hs found free small =
    let uploaded =
      uploaded_calm backend g a sv v w raw_id raw_semver calm calm_storage ha hs found free in
    (
      published backend g a sv v w,
      world_after backend g a sv v w,
      uploaded,
      refl,
      refl,
      refl,
      download-content (published backend g a sv v w) (world_after backend g a sv v w)
          (found_after backend g a sv v w) refl refl raw_id raw_semver a sv v
          (record { path = path backend g a sv v w; content = g.content }) refl
          (find_object-put_object_self (path backend g a sv v w) g.content w.objects) ha hs found
          refl small,
    )
