-- ===== src/Safety/Upload/Create.antt =====
-- The start of an upload of internal/api/handlers/files.go: the version is found and the row created.
use fusion_index.Prelude.{ℕ, ◌≡◌, refl, find, List, Text, arith, All, if_cases, not, exists, ◌==◌}
use fusion_index.Semver.{parse}
use fusion_index.Db.{Db, File, DbError, unique_violation, foreign_key_violation, DbResult, ok, err}
use fusion_index.Db.Versions.{get_artifact_version}
use fusion_index.Db.Files.{
  CreateArtifactFileParams, create_artifact_file, new_file, next_file, insert_file, named,
  find_file,
}
use fusion_index.Session.{Fate, World, run}
use fusion_index.Session.Cases.{Answered}
use fusion_index.Handlers.{conflict_or_internal, not_found_or_internal, ◌or◌, step_of}
use fusion_index.Handlers.Params.{path_id}
use fusion_index.Handlers.Post.{Post-step, Post, Post-continue, Post-require, run-Post-Answered}
use fusion_index.Handlers.Files.{resolve_version}
use fusion_index.Safety.{IsSafeWorld}
use fusion_index.Safety.Files.{next_file-IsSafe, insert-IsSafe, insert-Unpublished}
use fusion_index.Safety.Upload.Draft.{IsDraft}

-- An insert adds its row, or fails and has only drawn an id.
create_cases :
    (P : DbResult File × Db → Type 0) (params : CreateArtifactFileParams) (now : ℕ) (db : Db)
    → ((e : DbError) → P (err e, next_file db))
    → P (ok (new_file params now db), insert_file (new_file params now db) db)
    → P (create_artifact_file params now db)
unfolding create_artifact_file
create_cases P params now db x y =
    if_cases P (exists (named params.version_id params.name) db.files) _ _ (x unique_violation) (
      if_cases P (not (exists (λ v. v.id == params.version_id) db.versions)) _ _
        (x foreign_key_violation) y)

-- Safe, with the answers to come.
abbrev pub IsReady : World → Type 0
IsReady w = IsSafeWorld w × All Answered w.fates

module _ (params : CreateArtifactFileParams) where
  abbrev pub IsCreated : File → World → Type 0
  IsCreated row w = IsDraft row w × (row.name ≡ params.name)

  new_file-IsCreated :
      (w : World) (fs : List Fate)
      → IsSafeWorld w
      → All Answered fs
      → IsCreated
          (new_file params w.now w.db)
          (record w { db = insert_file (new_file params w.now w.db) w.db; fates = fs })
  unfolding insert_file new_file find_file find
  new_file-IsCreated w fs h k = (
    record {
      draft = record {
        safe = record { idle = h.idle; safe = insert-IsSafe params w.now w.db w.objects h.safe };
        hidden = insert-Unpublished params w.now w.db w.objects h.safe;
      };
      found = ground arith;
      answered = k;
    },
    refl,
  )

  pub create-IsCreated :
      (w : World)
      → IsReady w
      → Post IsCreated IsSafeWorld ((run (create_artifact_file params) or conflict_or_internal) w)
  create-IsCreated w (h, k) =
      run-Post-Answered IsCreated IsSafeWorld conflict_or_internal (create_artifact_file params) w k
        (λ fs k'.
          create_cases
            (λ r.
              Post IsCreated IsSafeWorld
                (step_of conflict_or_internal r.0, record w { db = r.1; fates = fs }))
            params w.now w.db
            (λ e. record {
              idle = h.idle;
              safe = next_file-IsSafe params w.now w.db w.objects h.safe;
            })
            (new_file-IsCreated w fs h k'))
        (λ fs _. record { idle = h.idle; safe = h.safe })

pub resolve_version-IsReady :
    (raw_id raw_semver : Text) (w : World)
    → IsReady w
    → Post (λ _. IsReady) IsSafeWorld (resolve_version raw_id raw_semver w)
unfolding resolve_version get_artifact_version
resolve_version-IsReady raw_id raw_semver w (h, k) =
    Post-require (λ _. IsReady) IsSafeWorld 400 (path_id raw_id) _ w h
      (λ a _.
        Post-require (λ _. IsReady) IsSafeWorld 400 (parse raw_semver) _ w h
          (λ sv _.
            Post-continue (λ _. IsReady) (λ _. IsReady) IsSafeWorld _ _
              (run-Post-Answered (λ _. IsReady) IsSafeWorld not_found_or_internal
                (get_artifact_version a sv) w k
                (λ fs k'.
                  Post-step IsReady IsSafeWorld not_found_or_internal _ _
                    (record { idle = h.idle; safe = h.safe }, k')
                    (record { idle = h.idle; safe = h.safe }))
                (λ fs _. record { idle = h.idle; safe = h.safe }))
              (λ v w' r. r)))
