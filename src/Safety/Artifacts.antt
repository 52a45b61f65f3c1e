-- ===== src/Safety/Artifacts.antt =====
-- The delete of an artifact of internal/api/handlers/artifacts.go keeps the tables and storage in
-- step.
use fusion_index.Prelude.{
  ℕ, ◌≡◌, ◌≢◌, refl, sym, ◌∙◌, Bool, true, false, ◌&&◌, Option, none, some, List, [], ◌∷◌, Text,
  arith, All, All-map, All-of_map, All-keep_if, All-of_each, All-found, find_holds, exists,
  exists-of_found, exists_cong, ◌==◌, ==_iff,
}
use fusion_index.Db.{
  Db, Version, File, removes_version, removes_artifact, delete_versions, delete_artifacts,
}
use fusion_index.Db.Versions.{find_version}
use fusion_index.Db.Files.{find_file, join_version}
use fusion_index.Db.Filtered.{semver_of}
use fusion_index.Session.{Object, World, find_object}
use fusion_index.Handlers.Params.{path_id}
use fusion_index.Handlers.Transaction.{kept, purged, Settled}
use fusion_index.Handlers.Artifacts.{artifact_paths, delete_artifact}
use fusion_index.Handlers.Artifacts.Atomic.{dropped, files_under, gone, delete_artifact-Settled}
use fusion_index.Safety.{
  IsFileSafe, IsSafe, IsSafeWorld, file_object_path-Owns, delete_versions-IsSafe,
  IsFileSafe-objects, Doomed, Doomed-ne,
}

-- Every version is one of an artifact that is there.
abbrev pub HasArtifacts : Db → Type 0
HasArtifacts db = All (λ v. exists (λ a. a.id == v.artifact_id) db.artifacts ≡ true) db.versions

-- The versions that go with the artifact.
abbrev below : ℕ → Db → Version → Bool
below id db v = removes_artifact (λ a. a.id == id) db v.artifact_id

below-HasArtifacts :
    (id : ℕ) (db : Db) (v : Version)
    → exists (λ a. a.id == v.artifact_id) db.artifacts ≡ true
    → v.artifact_id ≡ id
    → below id db v ≡ true
unfolding removes_artifact
below-HasArtifacts id db v h e =
    sym (
      exists_cong (λ a. a.id == v.artifact_id) (λ a. a.id == v.artifact_id && a.id == id)
        db.artifacts (All-of_each (λ a. rw e (doubled (a.id == id))) db.artifacts))
    ∙ h
  where
    doubled : (b : Bool) → b ≡ (b && b)
    doubled true = refl
    doubled false = refl

pub join_version-All :
    (P : File → Type 0) (db : Db) (fs : List File)
    → All P fs
    → All (λ r. P r.0 × (find_version r.0.version_id db ≡ some r.1)) (join_version db fs)
unfolding join_version
join_version-All P db [] h = tt
join_version-All P db (f ∷ fs) (h, hs) =
    joined (join_version-All P db fs hs) (find_version f.version_id db) refl
  where
    rest : List (File × Version)
    rest = join_version db fs

    joined :
        All (λ r. P r.0 × (find_version r.0.version_id db ≡ some r.1)) rest
        → (o : Option Version) → find_version f.version_id db ≡ o
        → All
            (λ r. P r.0 × (find_version r.0.version_id db ≡ some r.1))
            (elim o [ none ↦ rest | some v ↦ (f, v) ∷ rest ])
    joined k none e = k
    joined k (some v) e = ((h, e), k)

removes-found :
    (q : Version → Bool) (db : Db) (i : ℕ) (v : Version)
    → find_version i db ≡ some v
    → q v ≡ true
    → removes_version q db i ≡ true
unfolding find_version removes_version
removes-found q db i v found holds =
    let at : (v.id == i) ≡ true = find_holds (λ u. u.id == i) db.versions v found in
    exists-of_found (λ u. u.id == i) (λ u. u.id == i && q u) db.versions v found
      (ground (arith, at, holds))

found-HasArtifacts :
    (db : Db) (i : ℕ) (v : Version)
    → HasArtifacts db
    → find_version i db ≡ some v
    → exists (λ a. a.id == v.artifact_id) db.artifacts ≡ true
unfolding find_version
found-HasArtifacts db i v h found =
    All-found (λ u. exists (λ a. a.id == u.artifact_id) db.artifacts ≡ true) (λ u. u.id == i)
      db.versions v found h

gone-Doomed :
    (id : ℕ) (db : Db) (os : List Object)
    → HasArtifacts db
    → IsSafe db os
    → All (Doomed (below id db) db) (gone id db)
unfolding artifact_paths files_under removes_version
gone-Doomed id db os parents h = All-of_map (Doomed (below id db) db) _ _ (
    All-keep_if (λ r. r.1.artifact_id == id)
      (λ r (s, found) under. (
        r.0,
        file_object_path-Owns r.0 id (semver_of r.1) s,
        s.keyed,
        removes-found (below id db) db r.0.version_id r.1 found (
            below-HasArtifacts id db r.1 (found-HasArtifacts db r.0.version_id r.1 parents found)
              ((==_iff r.1.artifact_id id).0 under)),
      ))
      _ (join_version-All (IsFileSafe db os) db db.files h))

-- An object that an AVAILABLE row of another artifact points at is not among those that go.
dropped-IsSafe :
    (id : ℕ) (db : Db) (os os' : List Object)
    → HasArtifacts db
    → IsSafe db os
    → ((q : Text) → All (λ p. p ≢ q) (gone id db) → find_object q os' ≡ find_object q os)
    → IsSafe (dropped id db) os'
unfolding delete_artifacts delete_versions find_file
dropped-IsSafe id db os os' parents h same =
    All-map
      (λ f (after, before, stays).
        let kept_safe =
          IsFileSafe-objects (delete_versions (below id db) db) os os' f
            (λ a. same f.storage_path (
              All-map (λ p. Doomed-ne (below id db) db os f p before.keyed (before.owned a) stays)
                (gone id db) (gone-Doomed id db os parents h)))
            after in
        record {
          keyed = kept_safe.keyed;
          drawn = kept_safe.drawn;
          owned = kept_safe.owned;
          backed = kept_safe.backed;
        })
      _ (delete_versions-IsSafe (below id db) db os h)

-- Where every version has its artifact and every AVAILABLE file its object, every AVAILABLE file
-- still has its object after the delete of an artifact, whichever of its calls fail, and no
-- transaction is open.
pub delete_artifact-IsSafeWorld :
    (raw_id : Text) (id : ℕ) (w : World)
    → HasArtifacts w.db
    → IsSafeWorld w
    → path_id raw_id ≡ some id
    → IsSafeWorld (delete_artifact raw_id w).1
delete_artifact-IsSafeWorld raw_id id w parents h e =
    go (delete_artifact-Settled raw_id id w h.idle e).0
  where
    go : {w' : World} → Settled (dropped id w.db) (gone id w.db) w w' → IsSafeWorld w'
    go (kept i rows objects) = record { idle = i; safe = rw (rows, objects) h.safe }
    go (purged i rows others) = record {
      idle = i;
      safe = rw rows (dropped-IsSafe id w.db w.objects _ parents h.safe others);
    }
