-- ===== src/Safety/Bulk.antt =====
-- The bulk delete of internal/api/handlers/version_bulk.go keeps the tables and storage in step.
use fusion_index.Prelude.{
  ℕ, ◌≡◌, ◌≢◌, refl, sym, ◌∙◌, Bool, ◌&&◌, Option, none, some, List, [], ◌∷◌, map, Text, arith, All,
  All-map, All-of_map, All-keep_if, keep_if, find, exists, ◌==◌,
}
use fusion_index.Db.{Db, Version, File, removes_version, delete_versions}
use fusion_index.Db.Versions.{listed}
use fusion_index.Db.Filtered.{FilteredRow, semver_of}
use fusion_index.Session.{Object, World, find_object}
use fusion_index.Handlers.Paths.{Owns}
use fusion_index.Handlers.Bulk.{
  path_at, path_of, doomed_paths, ids_of, purge, FilterQuery, bulk_delete,
}
use fusion_index.Handlers.Transaction.{IsSame}
use fusion_index.Handlers.Bulk.Rule.{bulk_delete-rule}
use fusion_index.Handlers.Bulk.Atomic.{target, deleted_ids, doomed, Outcome, purge-Outcome}
use fusion_index.Handlers.Transaction.{kept, purged}
use fusion_index.Safety.{
  IsFileSafe, IsSafe, IsSafeWorld, file_object_path-Owns, delete_versions-IsSafe,
  IsFileSafe-objects, Doomed, Doomed-ne,
}

-- The ids that the statement answers with are those of the versions that it removes.
listed-deleted :
    (q : Version → Bool) (vs : List Version) (id : ℕ)
    → listed (map (λ v. v.id) (keep_if q vs)) id ≡ exists (λ v. v.id == id && q v) vs
unfolding listed exists keep_if
listed-deleted q [] id = refl
listed-deleted q (v ∷ vs) id = ground (arith, listed-deleted q vs id)

path_at-Owns :
    {db : Db} {os : List Object} (o : Option FilteredRow) (f : File)
    → IsFileSafe db os f
    → Owns f.id (path_at o f)
unfolding path_at
path_at-Owns none f s = file_object_path-Owns f 0 _ s
path_at-Owns (some r) f s = file_object_path-Owns f r.version.artifact_id (semver_of r.version) s

doomed-Doomed :
    (tag : Text) (cands : List FilteredRow) (db : Db) (os : List Object)
    → IsSafe db os
    → All (Doomed (target tag cands db) db) (doomed tag cands db)
unfolding doomed doomed_paths path_of deleted_ids removes_version
doomed-Doomed tag cands db os h = All-of_map (Doomed (target tag cands db) db) (path_of cands) _ (
    All-keep_if (λ f. listed (deleted_ids tag cands db) f.version_id)
      (λ f s gone. (
        f,
        path_at-Owns (find (λ r. r.version.id == f.version_id) cands) f s,
        s.keyed,
        sym (listed-deleted (target tag cands db) db.versions f.version_id) ∙ gone,
      ))
      _ (All-keep_if (λ f. listed (ids_of cands) f.version_id) (λ f s _. s) db.files h))

-- An object that an AVAILABLE row of a remaining version points at is not among the doomed.
purged-IsSafe :
    (tag : Text) (cands : List FilteredRow) (db : Db) (os os' : List Object)
    → IsSafe db os
    → ((q : Text) → All (λ p. p ≢ q) (doomed tag cands db) → find_object q os' ≡ find_object q os)
    → IsSafe (delete_versions (target tag cands db) db) os'
purged-IsSafe tag cands db os os' h same =
    All-map
      (λ f (after, before, stays).
        IsFileSafe-objects _ os os' f
          (λ a. same f.storage_path (
            All-map
              (λ p. Doomed-ne (target tag cands db) db os f p before.keyed (before.owned a) stays)
              (doomed tag cands db) (doomed-Doomed tag cands db os h)))
          after)
      _ (delete_versions-IsSafe (target tag cands db) db os h)

purge-IsSafeWorld :
    (tag : Text) (cands : List FilteredRow) (w : World)
    → IsSafeWorld w
    → IsSafeWorld (purge tag cands w).1
purge-IsSafeWorld tag cands w h = go (purge-Outcome tag cands w h.idle).0
  where
    go : {w' : World} → Outcome tag cands w w' → IsSafeWorld w'
    go (kept i e f) = record { idle = i; safe = rw (e, f) h.safe }
    go (purged i e f) = record {
      idle = i;
      safe = rw e (purged-IsSafe tag cands w.db w.objects _ h.safe f);
    }

-- Whatever filters a bulk delete is called with and whichever of its calls fail, a registry in
-- which every AVAILABLE file has its object still is one, with no transaction open.
pub bulk_delete-IsSafeWorld :
    (parse_time : Text → Option ℕ) (tag : Text) (artifact_id : Option ℕ) (q : FilterQuery)
    (w : World)
    → IsSafeWorld w
    → IsSafeWorld (bulk_delete parse_time tag artifact_id q w).1
bulk_delete-IsSafeWorld parse_time tag artifact_id q w h =
    bulk_delete-rule IsSafeWorld tag w (λ u s. keep u s) parse_time artifact_id q h.idle
      (λ params u parsed set wet s. purge-IsSafeWorld tag _ u (keep u s))
  where
    keep : (u : World) → IsSame w u → IsSafeWorld u
    keep u s = record { idle = s.idle; safe = rw (s.rows, s.objects) h.safe }
