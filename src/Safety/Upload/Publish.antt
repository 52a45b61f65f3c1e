-- ===== src/Safety/Upload/Publish.antt =====
-- The end of an upload of internal/api/handlers/files.go: the row becomes AVAILABLE.
use fusion_index.Prelude.{
  ℕ, ◌≡◌, refl, sym, ◌∙◌, ap, some, is_some, List, Text, length, arith, All, find-map, ◌==◌,
}
use fusion_index.Db.{Db, File, available, ok, one_row}
use fusion_index.Db.Files.{find_file, update_artifact_file_stored, stored}
use fusion_index.Session.{Fate, World, find_object, run}
use fusion_index.Session.Cases.{Answered, run_answered}
use fusion_index.Handlers.{file_storage_path}
use fusion_index.Handlers.Paths.{Owns}
use fusion_index.Handlers.Post.{Post, Post-continue}
use fusion_index.Handlers.Files.{Resolved, UploadForm, cleaning, recover, undo_store, finish_upload}
use fusion_index.Safety.{IsSafeWorld}
use mathlib.Core.Path.{subst}
use fusion_index.Safety.Files.{stored-id, stored-IsSafe}
use fusion_index.Safety.Upload.Draft.{
  IsHidden, undo_store-IsHidden, IsDraft, IsStored, store-IsStored,
}

-- The row that an upload of the form ends with: in the table, AVAILABLE, and its object has the
-- content.
pub record IsPublished (g : UploadForm) (f : File) (w : World) : Type 0 where
  pub safe : IsSafeWorld w
  pub status : f.status ≡ available
  pub name : f.name ≡ g.filename
  pub size : f.size_bytes ≡ some (length g.content)
  pub row : find_file f.id w.db ≡ some f
  pub object :
      find_object f.storage_path w.objects
      ≡ some (record { path = f.storage_path; content = g.content })

module _ (row : File) (p c : Text) (now : ℕ) where
  abbrev published : File
  published = stored row.id p (length c) now row

  published-fields :
      (published.status ≡ available)
      × (published.storage_path ≡ p)
      × (published.size_bytes ≡ some (length c))
      × (published.name ≡ row.name)
  unfolding stored
  published-fields = (ground arith, ground arith, ground arith, ground arith)

  published-found :
      (db : Db)
      → find_file row.id db ≡ some row
      → find_file row.id (update_artifact_file_stored row.id p (length c) now db).1 ≡ some published
  unfolding update_artifact_file_stored find_file
  published-found db e =
      find-map (λ f. f.id == row.id) (stored row.id p (length c) now) db.files row
        (λ f. ap (λ i. i == row.id) (stored-id row.id now f p (length c))) e

  published-answer :
      (db : Db)
      → find_file row.id db ≡ some row
      → (update_artifact_file_stored row.id p (length c) now db).0 ≡ ok published
  unfolding update_artifact_file_stored one_row
  published-answer db e = ap one_row (published-found db e)

publish-IsPublished :
    (row : File) (p : Text) (g : UploadForm) (w : World)
    → row.name ≡ g.filename
    → Owns row.id p
    → IsDraft row w
    → find_object p w.objects ≡ some (record { path = p; content = g.content })
    → Post (IsPublished g) IsSafeWorld (
        cleaning
          (run (update_artifact_file_stored row.id p (length g.content)))
          (undo_store row.id p)
          w)
publish-IsPublished row p g w e own h there =
    run_answered (λ r. Post (IsPublished g) IsSafeWorld (recover (undo_store row.id p) r))
      (update_artifact_file_stored row.id p (length g.content)) w h.answered served
      (λ fs _. (undo_store-IsHidden row.id p (record w { fates = fs }) own (again fs)).safe)
  where
    again : (fs : List Fate) → IsHidden row.id (record w { fates = fs })
    again fs = record {
      safe = record { idle = h.draft.safe.idle; safe = h.draft.safe.safe };
      hidden = h.draft.hidden;
    }

    db' : Db
    db' = (update_artifact_file_stored row.id p (length g.content) w.now w.db).1

    f : File
    f = published row p g.content w.now

    done : (fs : List Fate) → IsPublished g f (record w { db = db'; fates = fs })
    done fs = record {
      safe = record {
        idle = h.draft.safe.idle;
        safe =
            stored-IsSafe row.id w.now w.db w.objects p (length g.content) own (ap is_some there)
              h.draft.safe.safe;
      };
      status = (published-fields row p g.content w.now).0;
      name = (published-fields row p g.content w.now).3 ∙ e;
      size = (published-fields row p g.content w.now).2;
      row =
          ap (λ i. find_file i db') (stored-id row.id w.now row p (length g.content))
          ∙ published-found row p g.content w.now w.db h.found;
      object =
          subst (λ q. find_object q w.objects ≡ some (record { path = q; content = g.content }))
            (sym (published-fields row p g.content w.now).1) there;
    }

    served :
        (fs : List Fate)
        → All Answered fs
        → Post (IsPublished g) IsSafeWorld (
            recover (undo_store row.id p) (
              (update_artifact_file_stored row.id p (length g.content) w.now w.db).0,
              record w { db = db'; fates = fs },
            ))
    served fs _ =
        subst
          (λ r.
            Post (IsPublished g) IsSafeWorld
              (recover (undo_store row.id p) (r, record w { db = db'; fates = fs })))
          (sym (published-answer row p g.content w.now w.db h.found)) (done fs)

pub finish_upload-IsPublished :
    (r : Resolved) (g : UploadForm) (row : File) (w : World)
    → row.name ≡ g.filename
    → IsDraft row w
    → Post (IsPublished g) IsSafeWorld (finish_upload r g row w)
unfolding finish_upload
finish_upload-IsPublished r g row w e h =
    let p = file_storage_path r.artifact_id r.semver row.id g.filename in
    let own : Owns row.id p = (r.artifact_id, r.semver, g.filename, refl) in
    Post-continue (IsStored p g.content row) (IsPublished g) IsSafeWorld _ _
      (store-IsStored row p g.content w own h)
      (λ path w' (same, draft, there).
        subst
          (λ q. Post (IsPublished g) IsSafeWorld (
            cleaning (run (update_artifact_file_stored row.id q (length g.content)))
              (undo_store row.id q) w'))
          (sym same) (publish-IsPublished row p g w' e own draft there))
