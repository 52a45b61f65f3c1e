-- ===== src/Safety/Upload/Draft.antt =====
-- An upload of internal/api/handlers/files.go up to the store of its object: the row is a draft, and
-- its object may be written and deleted.
use fusion_index.Prelude.{ℕ, ◌≡◌, refl, some, List, Text, take, All}
use fusion_index.Db.{File, error}
use fusion_index.Db.Files.{find_file, update_artifact_file_status}
use fusion_index.Session.{Fate, World, find_object, put_object, without, store, remove}
use fusion_index.Session.Objects.{find_object-put_object_self, find_object-without}
use fusion_index.Session.Cases.{Answered, run_cases, store_cases, remove_cases}
use fusion_index.Handlers.Paths.{Owns}
use fusion_index.Handlers.Post.{Post}
use fusion_index.Handlers.Files.{cleaning, recover, mark_error, undo_store}
use fusion_index.Safety.{IsSafeWorld}
use fusion_index.Safety.Files.{Unpublished, mark-IsSafe, mark-Unpublished, put-IsSafe, any_objects}

-- Safe, with the file `i` not AVAILABLE.
pub record IsHidden (i : ℕ) (w : World) : Type 0 where
  pub safe : IsSafeWorld w
  pub hidden : Unpublished i w.db

pub mark_error-IsHidden : (i : ℕ) (w : World) → IsHidden i w → IsHidden i (mark_error i w)
unfolding mark_error
mark_error-IsHidden i w h =
    run_cases (λ r. IsHidden i r.1) (update_artifact_file_status i error) w (λ fs. marked fs)
      (λ fs. refated fs) (λ fs. marked fs)
  where
    refated : (fs : List Fate) → IsHidden i (record w { fates = fs })
    refated fs = record {
      safe = record { idle = h.safe.idle; safe = h.safe.safe };
      hidden = h.hidden;
    }

    marked :
        (fs : List Fate)
        → IsHidden i
            (record w { db = (update_artifact_file_status i error w.now w.db).1; fates = fs })
    marked fs = record {
      safe = record { idle = h.safe.idle; safe = mark-IsSafe i w.now w.db w.objects h.safe.safe };
      hidden = mark-Unpublished i w.now w.db w.objects h.hidden;
    }

remove-IsHidden : (i : ℕ) (p : Text) (w : World) → Owns i p → IsHidden i w → IsHidden i (remove p w)
remove-IsHidden i p w own h =
    remove_cases (IsHidden i) p w
      (λ fs. record { safe = record { idle = h.safe.idle; safe = h.safe.safe }; hidden = h.hidden })
      (λ fs. record {
        safe = record {
          idle = h.safe.idle;
          safe =
              any_objects i p w.db w.objects own (without p w.objects)
                (λ q. find_object-without p q w.objects) h.hidden h.safe.safe;
        };
        hidden = h.hidden;
      })

pub undo_store-IsHidden :
    (i : ℕ) (p : Text) (w : World) → Owns i p → IsHidden i w → IsHidden i (undo_store i p w)
unfolding undo_store
undo_store-IsHidden i p w own h =
    remove-IsHidden i p (mark_error i w) own (mark_error-IsHidden i w h)

-- A draft: its row is there and not AVAILABLE, and no answer of the database is lost from here.
pub record IsDraft (row : File) (w : World) : Type 0 where
  pub draft : IsHidden row.id w
  pub found : find_file row.id w.db ≡ some row
  pub answered : All Answered w.fates

pub put-IsHidden :
    (i : ℕ) (p c : Text) (w : World) (fs : List Fate)
    → Owns i p
    → IsHidden i w
    → IsHidden i (record w { objects = put_object p c w.objects; storage_fates = fs })
put-IsHidden i p c w fs own h = record {
  safe = record {
    idle = h.safe.idle;
    safe = put-IsSafe i p w.db w.objects own c h.hidden h.safe.safe;
  };
  hidden = h.hidden;
}

-- After the store: still a draft, whose object is there.
abbrev pub IsStored : Text → Text → File → Text → World → Type 0
IsStored p c row path w =
    (path ≡ p) × IsDraft row w × (find_object p w.objects ≡ some (record { path = p; content = c }))

pub store-IsStored :
    (row : File) (p c : Text) (w : World)
    → Owns row.id p
    → IsDraft row w
    → Post (IsStored p c row) IsSafeWorld (cleaning (store p c) (mark_error row.id) w)
store-IsStored row p c w own h =
    store_cases (λ r. Post (IsStored p c row) IsSafeWorld (recover (mark_error row.id) r)) p c w
      (λ fs. (
        refl,
        record {
          draft = put-IsHidden row.id p c w fs own h.draft;
          found = h.found;
          answered = h.answered;
        },
        find_object-put_object_self p c w.objects,
      ))
      (λ fs.
        (mark_error-IsHidden row.id (record w { storage_fates = fs })
          (record {
            safe = record { idle = h.draft.safe.idle; safe = h.draft.safe.safe };
            hidden = h.draft.hidden;
          })).safe)
      (λ fs n.
        (mark_error-IsHidden row.id
          (record w { objects = put_object p (take n c) w.objects; storage_fates = fs })
          (put-IsHidden row.id p (take n c) w fs own h.draft)).safe)
