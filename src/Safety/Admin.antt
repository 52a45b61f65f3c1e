-- ===== src/Safety/Admin.antt =====
-- The clean-up of incomplete files of internal/api/handlers/admin.go keeps the tables and storage
-- in step.
use fusion_index.Prelude.{
  ℕ, ◌≡◌, ◌≢◌, false, arith, refl, sym, ap, ◌∙◌, true, not, Option, some, List, map, Text, All,
  All-map, All-of_map, All-keep_if, keep_if, find-keep_if,
}
use mathlib.Core.Path.{subst}
use mathlib.Core.Bool.{false≢true}
use fusion_index.Db.{Db, File, available}
use fusion_index.Db.Files.{find_file, join_version}
use fusion_index.Db.Filtered.{semver_of, is_incomplete}
use fusion_index.Db.Cleanup.{
  IncompleteFile, is_stale, drops_file, to_incomplete, count_incomplete_files,
  delete_incomplete_files,
}
use fusion_index.Session.{Fate, Object, World, find_object, remove_all}
use fusion_index.Session.Objects.{db-remove_all, saved-remove_all, find_object-remove_all}
use fusion_index.Handlers.{internal_error}
use fusion_index.Handlers.Paths.{Owns, Owns-injective}
use fusion_index.Handlers.Params.{parse_older_than}
use fusion_index.Handlers.Post.{Post-continue, Post-require, run-Post, Post-world}
use fusion_index.Handlers.Admin.{path_of_incomplete, delete_incomplete}
use fusion_index.Safety.{IsFileSafe, IsSafe, IsSafeWorld, IsFileSafe-objects}
use fusion_index.Safety.Artifacts.{join_version-All}

module _ (before : ℕ) (tag : Text) (db : Db) where
  abbrev swept : Db
  swept = record db { files = keep_if (λ f. not (drops_file before tag db f)) db.files }

  abbrev rows : List IncompleteFile
  rows = map to_incomplete (join_version db (keep_if (drops_file before tag db) db.files))

  abbrev paths : List Text
  paths = map path_of_incomplete rows

  -- The path of a row that goes.
  abbrev Swept : Text → Type 0
  Swept p =
      (g : File) × Owns g.id p × (find_file g.id db ≡ some g) × (drops_file before tag db g ≡ true)

  paths-Swept : (os : List Object) → IsSafe db os → All Swept paths
  unfolding path_of_incomplete to_incomplete
  paths-Swept os h = All-of_map Swept path_of_incomplete rows (
      All-of_map (λ r. Swept (path_of_incomplete r)) to_incomplete _
        (All-map
          (λ r ((s, gone), _).
            (r.0, (r.1.artifact_id, semver_of r.1, r.0.name, refl), s.keyed, gone))
          _
          (join_version-All (λ f. IsFileSafe db os f × (drops_file before tag db f ≡ true)) db _
            (All-keep_if (drops_file before tag db) (λ f s gone. (s, gone)) db.files h))))

  Swept-ne :
      (f : File) (p : Text)
      → find_file f.id db ≡ some f
      → Owns f.id f.storage_path
      → not (drops_file before tag db f) ≡ true
      → Swept p
      → p ≢ f.storage_path
  Swept-ne f p key own stays (g, owns, found, gone) same =
      let ids = Owns-injective g.id f.id f.storage_path (subst (Owns g.id) same owns) own in
      let row : g ≡ f = cc (sym found ∙ ap (λ i. find_file i db) ids ∙ key) in
      false≢true (sym (ap not (ap (drops_file before tag db) (sym row) ∙ gone)) ∙ stays)

  swept-IsSafe :
      (os os' : List Object)
      → IsSafe db os
      → ((q : Text) → All (λ p. p ≢ q) paths → find_object q os' ≡ find_object q os)
      → IsSafe swept os'
  unfolding find_file
  swept-IsSafe os os' h same =
      All-keep_if (λ f. not (drops_file before tag db f))
        (λ f s stays.
          IsFileSafe-objects swept os os' f
            (λ a.
              same f.storage_path
                (All-map (λ p. Swept-ne f p s.keyed (s.owned a) stays) paths (paths-Swept os h)))
            (record {
              keyed =
                  find-keep_if _ (λ g. not (drops_file before tag db g)) db.files f s.keyed stays;
              drawn = s.drawn;
              owned = s.owned;
              backed = s.backed;
            }))
        db.files h

-- A clean-up of incomplete files drops no file that is AVAILABLE.
spares_available :
    (before : ℕ) (tag : Text) (db : Db) (f : File)
    → f.status ≡ available
    → drops_file before tag db f ≡ false
unfolding drops_file is_stale is_incomplete
spares_available before tag db f e = rw e (ground arith)

swept-keeps :
    (before : ℕ) (tag : Text) (db : Db) (f : File)
    → f.status ≡ available
    → find_file f.id db ≡ some f
    → find_file f.id (swept before tag db) ≡ some f
unfolding find_file
swept-keeps before tag db f e found =
    find-keep_if _ (λ g. not (drops_file before tag db g)) db.files f found
      (ap not (spares_available before tag db f e))

-- The invariant, and the rows of files that are AVAILABLE stay.
abbrev pub IsSafeAfter : Db → World → Type 0
IsSafeAfter db u =
    IsSafeWorld u
    × ((f : File)
        → f.status ≡ available
        → find_file f.id db ≡ some f
        → find_file f.id u.db ≡ some f)

-- Where every AVAILABLE file has its object, every one still has its row and its object after the clean-up
-- of incomplete files, whichever of its calls fail, and no transaction is open.
pub delete_incomplete-IsSafeWorld :
    (parse_time : Text → Option ℕ) (tag older_than : Text) (w : World)
    → IsSafeWorld w
    → IsSafeAfter w.db (delete_incomplete parse_time tag older_than w).1
unfolding delete_incomplete count_incomplete_files delete_incomplete_files
delete_incomplete-IsSafeWorld parse_time tag older_than w h = Post-world After _ (
    Post-require (λ _. After) After 400 (parse_older_than parse_time older_than) _ w
      (h, λ f a found. found)
      (λ before _.
        Post-continue (λ _. After) (λ _. After) After _ _
          (run-Post (λ _. After) After internal_error (count_incomplete_files before) w
            (λ fs. calm w fs (h, λ f a found. found)) (λ fs. calm w fs (h, λ f a found. found))
            (λ fs. calm w fs (h, λ f a found. found)))
          (λ total u k.
            Post-continue Removable (λ _. After) After _ _
              (run-Post Removable After internal_error (delete_incomplete_files before tag) u
                (λ fs. removed before u fs k) (λ fs. calm u fs k) (λ fs. lost before u fs k))
              (λ rows v r. r))))
  where
    After : World → Type 0
    After = IsSafeAfter w.db

    calm : (u : World) (fs : List Fate) → After u → After (record u { fates = fs })
    calm u fs (k, stay) = (record { idle = k.idle; safe = k.safe }, stay)

    Removable : List IncompleteFile → World → Type 0
    Removable rows v = After (remove_all (map path_of_incomplete rows) v)

    removed :
        (before : ℕ) (u : World) (fs : List Fate)
        → After u
        → Removable (rows before tag u.db) (record u { db = swept before tag u.db; fates = fs })
    removed before u fs (k, stay) =
        let v : World = record u { db = swept before tag u.db; fates = fs } in
        let ps = paths before tag u.db in
        (
          record {
            idle = saved-remove_all ps v ∙ k.idle;
            safe =
                subst (λ d. IsSafe d (remove_all ps v).objects) (sym (db-remove_all ps v))
                  (swept-IsSafe before tag u.db u.objects (remove_all ps v).objects k.safe
                    (λ q ne. find_object-remove_all ps q v ne));
          },
          λ f a found.
              ap (find_file f.id) (db-remove_all ps v)
              ∙ swept-keeps before tag u.db f a (stay f a found),
        )

    lost :
        (before : ℕ) (u : World) (fs : List Fate)
        → After u
        → After (record u { db = swept before tag u.db; fates = fs })
    lost before u fs (k, stay) = (
      record {
        idle = k.idle;
        safe = swept-IsSafe before tag u.db u.objects u.objects k.safe (λ q _. refl);
      },
      λ f a found. swept-keeps before tag u.db f a (stay f a found),
    )
