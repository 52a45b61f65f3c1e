-- ===== src/Handlers/Artifacts/Atomic.antt =====
-- The delete of an artifact: everything that is under it goes, or nothing.
use fusion_index.Prelude.{
  ℕ, ◌≡◌, refl, ap, sym, ◌∙◌, Bool, true, false, not, ◌&&◌, exists, exists_implies, exists_false,
  All-of_each, Bool-cases, inl, inr, arith, none, some, List, Text, keep_if, ◌==◌,
}
use fusion_index.Db.{
  Db, Artifact, Version, File, delete_artifacts, delete_versions, removes_artifact, removes_version,
  refers,
}
use mathlib.Core.Path.{fun_ext}
use fusion_index.Db.Artifacts.{get_registry_artifact, delete_registry_artifact}
use fusion_index.Db.Files.{list_files_by_artifact_id, join_version}
use fusion_index.Session.{World, run, begin, commit}
use fusion_index.Handlers.{
  ◌>>=◌, ◌>>◌, deferring_rollback, ◌or◌, internal_error, not_found_or_internal,
}
use fusion_index.Handlers.Params.{path_id}
use fusion_index.Handlers.Post.{
  Post, Post-continue, Post-require, Post-step, run-Post, begin-Post, Post-world,
}
use fusion_index.Handlers.Transaction.{
  IsSame, Settled, kept, InTransaction, Committed, Failed, before_commit, commit-Committed, Cleaned,
  rollback-Settled,
}
use fusion_index.Handlers.Artifacts.{artifact_paths, drop_rows, drop_artifact, delete_artifact}

-- The tables without the artifact.
abbrev pub dropped : ℕ → Db → Db
dropped id d = delete_artifacts (λ a. a.id == id) d

-- The files under the artifact, each with its version.
unfoldable pub files_under : ℕ → Db → List (File × Version)
files_under id d = keep_if (λ r. r.1.artifact_id == id) (join_version d d.files)

abbrev pub gone : ℕ → Db → List Text
gone id d = artifact_paths id (files_under id d)

module _ (id : ℕ) (w : World) where
  abbrev Within : Db → World → Type 0
  Within d v = InTransaction (dropped id w.db) (gone id w.db) w d v

  abbrev Drop : World → Type 0
  Drop v = Committed (dropped id w.db) (gone id w.db) w v

  abbrev Fails : World → Type 0
  Fails v = Failed (dropped id w.db) (gone id w.db) w v

  abbrev Listed : List (File × Version) → World → Type 0
  Listed files u = Within w.db u × (files ≡ files_under id w.db)

  list-Listed :
      (v : World)
      → Within w.db v
      → Post Listed Fails ((run (list_files_by_artifact_id id) or internal_error) v)
  unfolding list_files_by_artifact_id files_under
  list-Listed v h =
      run-Post Listed Fails internal_error (list_files_by_artifact_id id) v
        (λ fs. (record { rows = h.rows; restores = h.restores; objects = h.objects }, rw h.rows))
        (λ fs. before_commit (ap (λ d. d.sequences) h.rows) h.restores h.objects)
        (λ fs. before_commit (ap (λ d. d.sequences) h.rows) h.restores h.objects)

  delete-Within :
      (v : World)
      → Within w.db v
      → Post
          (λ _ u. Within (dropped id w.db) u)
          Fails
          ((run (delete_registry_artifact id) or internal_error) v)
  unfolding delete_registry_artifact delete_artifacts delete_versions
  delete-Within v h =
      run-Post (λ _ u. Within (dropped id w.db) u) Fails internal_error
        (delete_registry_artifact id) v
        (λ fs. record { rows = rw h.rows; restores = h.restores; objects = h.objects })
        (λ fs. before_commit (ap (λ d. d.sequences) h.rows) h.restores h.objects)
        (λ fs. before_commit (ap (λ d. d.sequences) h.rows) h.restores h.objects)

  commit-Drop :
      (v : World)
      → Within (dropped id w.db) v
      → Post (λ _ u. Drop u) Fails ((commit or internal_error) v)
  unfolding delete_artifacts delete_versions
  commit-Drop v h = commit-Committed (dropped id w.db) (gone id w.db) w v refl h

  abbrev Done : List (File × Version) → World → Type 0
  Done files u = Drop u × (files ≡ files_under id w.db)

  drop_rows-Done : (v : World) → Within w.db v → Post Done Fails (drop_rows id v)
  unfolding drop_rows
  drop_rows-Done v h = Post-continue Listed Done Fails _ _ (list-Listed v h) λ files u k.
      Post-continue (λ _ x. Within (dropped id w.db) x) Done Fails _ _ (delete-Within u k.0)
        λ _ x l. Post-continue (λ _ y. Drop y) Done Fails _ _ (commit-Drop x l) λ _ y m. (m, k.1)

  abbrev Clean : World → Type 0
  Clean u = Cleaned (dropped id w.db) (gone id w.db) w u

  drop_artifact-Cleaned :
      (v : World) → Within w.db v → Post (λ _ u. Clean u) Fails (drop_artifact id v)
  unfolding drop_artifact
  drop_artifact-Cleaned v h =
      Post-continue Done (λ _ u. Clean u) Fails _ _ (drop_rows-Done v h)
        λ files u k. (u, artifact_paths id files, k.0, ap (artifact_paths id) k.1, refl)

module _ (id : ℕ) (w : World) (idle : w.saved ≡ none) where
  abbrev End : World → Type 0
  End u = Settled (dropped id w.db) (gone id w.db) w u

  find-IsSame :
      Post (λ _ u. IsSame w u) End ((run (get_registry_artifact id) or not_found_or_internal) w)
  unfolding get_registry_artifact
  find-IsSame =
      run-Post (λ _ u. IsSame w u) End not_found_or_internal (get_registry_artifact id) w
        (λ fs.
          Post-step (IsSame w) End not_found_or_internal _ _
            (record { rows = refl; objects = refl; idle = idle }) (kept idle refl refl))
        (λ fs. kept idle refl refl) (λ fs. kept idle refl refl)

  begin-Within :
      (u : World) → IsSame w u → Post (λ _ v. Within id w w.db v) End ((begin or internal_error) u)
  begin-Within u s =
      begin-Post (λ _ v. Within id w w.db v) End internal_error u
        (λ fs. record { rows = s.rows; restores = ap some s.rows; objects = s.objects })
        (λ fs. kept s.idle s.rows s.objects)

  found-Settled :
      Post
        (λ _ u. End u)
        End
        (((run (get_registry_artifact id) or not_found_or_internal)
            >>= (λ _. (begin or internal_error) >> deferring_rollback (drop_artifact id)))
          w)
  found-Settled =
      Post-continue (λ _ u. IsSame w u) (λ _ u. End u) End _ _ find-IsSame
        λ _ u s.
          Post-continue (λ _ v. Within id w w.db v) (λ _ v. End v) End _ _ (begin-Within u s)
            λ _ v h.
              rollback-Settled (dropped id w.db) (gone id w.db) w (drop_artifact id) v
                (drop_artifact-Cleaned id w v h)

-- The tables less the artifacts whose ids are gone and the rows that belong to them: versions with their files
-- and tags, assignments of types, and policies.
abbrev cut : (ℕ → Bool) → Db → Db
cut is_gone d = record d {
  artifacts = keep_if (λ a. not (is_gone a.id)) d.artifacts;
  versions = keep_if (λ v. not (is_gone v.artifact_id)) d.versions;
  files =
      keep_if (λ f. not (exists (λ v. v.id == f.version_id && is_gone v.artifact_id) d.versions))
        d.files;
  tags =
      keep_if (λ t. not (is_gone t.artifact_id))
        (keep_if (λ t. not (exists (λ v. v.id == t.version_id && is_gone v.artifact_id) d.versions))
          d.tags);
  type_maps = keep_if (λ m. not (is_gone m.artifact_id)) d.type_maps;
  policies = keep_if (λ r. not (refers is_gone r.artifact_id)) d.policies;
}

abbrev pub without_artifact : ℕ → Db → Db
without_artifact id d = cut (λ i. i == id) d

only_id :
    (id i : ℕ) (rows : List Artifact)
    → exists (λ a. a.id == id) rows ≡ true
    → exists (λ a. a.id == i && a.id == id) rows ≡ (i == id)
only_id id i rows here = elim (Bool-cases (i == id)) [
  | inl same ↦ exists_implies (λ a. a.id == id) _ rows (λ a e. both a.id e same) here ∙ sym same
  | inr other ↦ exists_false _ rows (All-of_each (λ a. neither a.id other) rows) ∙ sym other
]
  where
    both : (n : ℕ) → (n == id) ≡ true → (i == id) ≡ true → (n == i && n == id) ≡ true
    both n e f = ground arith

    neither : (n : ℕ) → (i == id) ≡ false → (n == i && n == id) ≡ false
    neither n e = ground arith

dropped_without :
    (id : ℕ) (d : Db)
    → exists (λ a. a.id == id) d.artifacts ≡ true
    → dropped id d ≡ without_artifact id d
unfolding delete_artifacts delete_versions removes_artifact removes_version refers
dropped_without id d here =
    let same : (λ i. exists (λ a. a.id == i && a.id == id) d.artifacts) ≡ (λ i. i == id) =
      fun_ext (λ i. only_id id i d.artifacts here) in
    start
    ∙ ap (λ g. record (cut g d) { artifacts = keep_if (λ a. not (a.id == id)) d.artifacts }) same
  where
    start : dropped id d ≡ record (cut (λ i. exists (λ a. a.id == i && a.id == id) d.artifacts) d) {
      artifacts = keep_if (λ a. not (a.id == id)) d.artifacts;
    }
    start = refl

settled :
    (raw_id : Text) (id : ℕ) (w : World)
    → w.saved ≡ none
    → path_id raw_id ≡ some id
    → Settled (dropped id w.db) (gone id w.db) w (delete_artifact raw_id w).1
unfolding delete_artifact
settled raw_id id w idle e = Post-world (End id w idle) (delete_artifact raw_id w) (
    Post-require (λ _ u. End id w idle u) (End id w idle) 400 (path_id raw_id) _ w
      (kept idle refl refl)
      (λ i f. let same : i ≡ id = cc (sym f ∙ e) in rw same (found-Settled id w idle)))

-- The delete of an artifact, whichever of its calls fail, leaves the tables and the objects as they
-- were, or makes the tables those without the artifact, and removes at most the objects of its files; where
-- the artifact is there, these tables lack exactly it, its versions with their files and tags, its tags,
-- its assignments of types and its policy.
pub delete_artifact-Settled :
    (raw_id : Text) (id : ℕ) (w : World)
    → w.saved ≡ none
    → path_id raw_id ≡ some id
    → Settled (dropped id w.db) (gone id w.db) w (delete_artifact raw_id w).1
      × (exists (λ a. a.id == id) w.db.artifacts ≡ true
          → dropped id w.db ≡ without_artifact id w.db)
delete_artifact-Settled raw_id id w idle e = (settled raw_id id w idle e, dropped_without id w.db)
