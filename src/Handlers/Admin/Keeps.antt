-- ===== src/Handlers/Admin/Keeps.antt =====
-- What the clean-ups of artifacts and versions of internal/api/handlers/admin.go leave alone.
use fusion_index.Prelude.{
  ℕ, ◌≡◌, refl, sym, ap, ◌∙◌, Bool, true, false, ◌&&◌, not, Option, some, List, Text, arith, All,
  All-map, All-of_each, exists_each, keep_if_each, exists_false, exists, exists_some,
  exists_excludes, exists_implies, ◌==◌, ==_iff, ==_refl, Bool-cases, inl, inr, find-keep_if,
}
use mathlib.Core.Bool.{false≢true}
use fusion_index.Db.{
  Artifact, Version, File, Db, ok, Statement, removes_version, delete_versions, removes_artifact,
  delete_artifacts,
}
use fusion_index.Db.Artifacts.{find_artifact}
use fusion_index.Db.Versions.{find_version}
use fusion_index.Db.Cleanup.{
  has_tag, has_versions, version_has_files, has_files, is_versionless, is_fileless, is_bare,
  drops_versionless, drops_fileless, drops_bare, count_empty_artifacts, delete_empty_artifacts,
  count_artifacts_without_files, delete_artifacts_without_files, count_versions_without_files,
  delete_versions_without_files,
}
use fusion_index.Session.{Fate, World}
use fusion_index.Handlers.{internal_error}
use fusion_index.Handlers.Post.{Post-continue, Post-require, run-Post, Post-world, Post-step}
use fusion_index.Handlers.Params.{parse_older_than}
use fusion_index.Handlers.Admin.{clean_up, delete_empty, delete_fileless, delete_bare}

-- A clean-up leaves the tables alone or is its delete.
clean_up-Post :
    (P : World → Type 0) (parse_time : Text → Option ℕ) (p : ℕ → Db → ℕ) (delete : ℕ → Statement ℕ)
    (older_than : Text) (w : World)
    → ((fs : List Fate) → P (record w { fates = fs }))
    → ((fs : List Fate) (before : ℕ)
        → P (record w { db = (delete before w.now w.db).1; fates = fs }))
    → P (clean_up parse_time (λ before now db. (ok (p before db), db)) delete older_than w).1
clean_up-Post P parse_time p delete older_than w same after = Post-world P _ (
    Post-require (λ _ u. P u) P 400 (parse_older_than parse_time older_than) _ w (same w.fates)
      (λ before _.
        Post-continue (λ _. Counted) (λ _ u. P u) P _ _
          (run-Post (λ _. Counted) P internal_error (λ now db. (ok (p before db), db)) w
            (λ fs. (same, after)) same same)
          (λ total u (same, after).
            Post-continue (λ _ u. P u) (λ _ u. P u) P _ _
              (run-Post (λ _ u. P u) P internal_error (delete before) u
                (λ gs.
                  Post-step P P internal_error (delete before u.now u.db).0 _ (after gs before)
                    (after gs before))
                same (λ gs. after gs before))
              (λ deleted v h. h))))
  where
    Counted : World → Type 0
    Counted u =
        ((fs : List Fate) → P (record u { fates = fs }))
        × ((fs : List Fate) (before : ℕ)
            → P (record u { db = (delete before u.now u.db).1; fates = fs }))

and_left : (a b : Bool) → (a && b) ≡ true → a ≡ true
and_left a b h = ground arith

and_right : (a b : Bool) → (a && b) ≡ true → b ≡ true
and_right a b h = ground arith

and_excludes : (a b : Bool) → (a && not b) ≡ true → b ≡ false
and_excludes a b h = ground arith

not_of_false : (b : Bool) → b ≡ false → not b ≡ true
not_of_false b h = rw h refl

-- Versions without files take no file along.
versions_keep_files :
    (p : Version → Bool) (db : Db)
    → All (λ v. p v ≡ true → version_has_files db v.id ≡ false) db.versions
    → (delete_versions p db).files ≡ db.files
unfolding delete_versions removes_version version_has_files
versions_keep_files p db h = keep_if_each _ db.files (
    All-map
      (λ f here.
        not_of_false _
          (exists_false _ db.versions (All-map (λ v bare. excluded v f here bare) db.versions h)))
      db.files
      (exists_each (λ f g. g.version_id == f.version_id) db.files (λ f. ==_refl f.version_id)))
  where
    excluded :
        (v : Version) (f : File)
        → exists (λ g. g.version_id == f.version_id) db.files ≡ true
        → (p v ≡ true → exists (λ g. g.version_id == v.id) db.files ≡ false)
        → (v.id == f.version_id && p v) ≡ false
    excluded v f here bare = elim (Bool-cases (v.id == f.version_id)) [
      | inl same ↦ elim (Bool-cases (p v)) [
        | inl goes ↦
            let e : v.id ≡ f.version_id = (==_iff v.id f.version_id).0 same in
            absurd (
              false≢true
                (sym (bare goes) ∙ ap (λ i. exists (λ g. g.version_id == i) db.files) e ∙ here))
        | inr stays ↦ ground (arith, stays)
      ]
      | inr other ↦ rw other refl
    ]

-- Artifacts without files take no file along.
artifacts_keep_files :
    (q : Artifact → Bool) (db : Db)
    → ((a : Artifact) → q a ≡ true → has_files db a.id ≡ false)
    → (delete_artifacts q db).files ≡ db.files
unfolding delete_artifacts removes_artifact has_files
artifacts_keep_files q db h =
    versions_keep_files (λ v. removes_artifact q db v.artifact_id) db
      (All-map (λ v here gone. bare v here gone) db.versions
        (exists_each (λ v u. u.id == v.id && u.artifact_id == v.artifact_id) db.versions
          (λ v. ground arith)))
  where
    owner :
        (v u : Version)
        → version_has_files db v.id ≡ true
        → (u.id == v.id && u.artifact_id == v.artifact_id) ≡ true
        → (u.artifact_id == v.artifact_id && version_has_files db u.id) ≡ true
    owner v u has k =
        let e = (==_iff u.id v.id).0 (and_left _ _ k) in rw (and_right (u.id == v.id) _ k, e) has

    bare :
        (v : Version)
        → exists (λ u. u.id == v.id && u.artifact_id == v.artifact_id) db.versions ≡ true
        → removes_artifact q db v.artifact_id ≡ true
        → version_has_files db v.id ≡ false
    bare v here gone =
        let (a, e) = exists_some (λ a. a.id == v.artifact_id && q a) db.artifacts gone in
        let same : a.id ≡ v.artifact_id = (==_iff a.id v.artifact_id).0 (and_left _ _ e) in
        elim (Bool-cases (version_has_files db v.id)) [
          | inl has ↦ absurd (
              false≢true (
                sym (h a (and_right _ _ e))
                ∙ ap
                    (λ i. exists (λ u. u.artifact_id == i && version_has_files db u.id) db.versions)
                    same
                ∙ exists_implies _ _ db.versions (λ u k. owner v u has k) here))
          | inr lacks ↦ lacks
        ]

module _ (before : ℕ) (tag : Text) (db : Db) where
  drops_versionless-files :
      (a : Artifact) → drops_versionless before tag db a ≡ true → has_files db a.id ≡ false
  unfolding drops_versionless is_versionless has_versions has_files
  drops_versionless-files a e =
      exists_excludes _ (λ v. v.artifact_id == a.id) db.versions (λ v k. and_left _ _ k)
        (and_excludes _ _ (and_left _ _ e))

  drops_fileless-files :
      (a : Artifact) → drops_fileless before tag db a ≡ true → has_files db a.id ≡ false
  unfolding drops_fileless is_fileless
  drops_fileless-files a e = and_excludes _ _ (and_left _ _ e)

  drops_bare-files :
      (v : Version) → drops_bare before tag db v ≡ true → version_has_files db v.id ≡ false
  unfolding drops_bare is_bare
  drops_bare-files v e = and_excludes _ _ (and_left _ _ e)

abbrev pub KeepsFiles : World → World → Type 0
KeepsFiles w u = (u.db.files ≡ w.db.files) × (u.objects ≡ w.objects)

-- The clean-ups of empty artifacts, of artifacts whose versions have no file, and of versions
-- without files leave every file row and every object as it is, whichever of their calls fail.
pub clean_ups-KeepsFiles :
    (parse_time : Text → Option ℕ) (tag older_than : Text) (w : World)
    → KeepsFiles w (delete_empty parse_time tag older_than w).1
      × KeepsFiles w (delete_fileless parse_time tag older_than w).1
      × KeepsFiles w (delete_bare parse_time tag older_than w).1
unfolding delete_empty delete_fileless delete_bare count_empty_artifacts delete_empty_artifacts
    count_artifacts_without_files delete_artifacts_without_files count_versions_without_files
    delete_versions_without_files
clean_ups-KeepsFiles parse_time tag older_than w = (
  clean_up-Post (KeepsFiles w) parse_time _ (λ before. delete_empty_artifacts before tag) older_than
      w (λ fs. (refl, refl))
      (λ fs before.
        (artifacts_keep_files _ w.db (λ a e. drops_versionless-files before tag w.db a e), refl)),
  clean_up-Post (KeepsFiles w) parse_time _ (λ before. delete_artifacts_without_files before tag)
      older_than w (λ fs. (refl, refl))
      (λ fs before.
        (artifacts_keep_files _ w.db (λ a e. drops_fileless-files before tag w.db a e), refl)),
  clean_up-Post (KeepsFiles w) parse_time _ (λ before. delete_versions_without_files before tag)
      older_than w (λ fs. (refl, refl))
      (λ fs before. (
        versions_keep_files _ w.db
            (All-of_each (λ v. drops_bare-files before tag w.db v) w.db.versions),
        refl,
      )),
)

-- A delete of artifacts that spares one keeps a version of it.
spared_version :
    (q : Artifact → Bool) (db : Db) (v : Version)
    → ((b : Artifact) → b.id ≡ v.artifact_id → q b ≡ false)
    → find_version v.id db ≡ some v
    → find_version v.id (delete_artifacts q db) ≡ some v
unfolding delete_artifacts delete_versions removes_artifact find_version
spared_version q db v spares found =
    find-keep_if _ (λ u. not (exists (λ b. b.id == u.artifact_id && q b) db.artifacts)) db.versions
      v found (not_of_false _ (exists_false _ db.artifacts (All-of_each spared db.artifacts)))
  where
    spared : (b : Artifact) → (b.id == v.artifact_id && q b) ≡ false
    spared b = elim (Bool-cases (b.id == v.artifact_id)) [
      | inl same ↦ rw (spares b ((==_iff b.id v.artifact_id).0 same)) (ground arith)
      | inr other ↦ rw other refl
    ]

guarded_off : (x y : Bool) → y ≡ true → (x && not y) ≡ false
guarded_off x y e = ground arith

-- The artifact and the version are there.
abbrev pub Holds : Artifact → Version → Db → Type 0
Holds a v db = (find_artifact a.id db ≡ some a) × (find_version v.id db ≡ some v)

-- An artifact that carries the protection tag, and a version of one, outlive the clean-ups of artifacts and
-- of versions, whichever of their calls fail.
pub clean_ups-protected :
    (parse_time : Text → Option ℕ) (tag older_than : Text) (w : World) (a : Artifact) (v : Version)
    → find_artifact a.id w.db ≡ some a
    → has_tag tag w.db a.id ≡ true
    → find_version v.id w.db ≡ some v
    → v.artifact_id ≡ a.id
    → Holds a v (delete_empty parse_time tag older_than w).1.db
      × Holds a v (delete_fileless parse_time tag older_than w).1.db
      × Holds a v (delete_bare parse_time tag older_than w).1.db
unfolding delete_empty delete_fileless delete_bare count_empty_artifacts delete_empty_artifacts
    count_artifacts_without_files delete_artifacts_without_files count_versions_without_files
    delete_versions_without_files delete_artifacts delete_versions find_artifact find_version
    drops_versionless drops_fileless drops_bare
clean_ups-protected parse_time tag older_than w a v found tagged there under = (
  clean_up-Post (λ u. Holds a v u.db) parse_time _ (λ before. delete_empty_artifacts before tag)
      older_than w (λ fs. (found, there))
      (λ fs before. (
        find-keep_if _ (λ b. not (drops_versionless before tag w.db b)) w.db.artifacts a found
            (kept _ _ tagged),
        spared_version (drops_versionless before tag w.db) w.db v
            (λ b same. guarded_off _ _ (marked b.id same)) there,
      )),
  clean_up-Post (λ u. Holds a v u.db) parse_time _
      (λ before. delete_artifacts_without_files before tag) older_than w (λ fs. (found, there))
      (λ fs before. (
        find-keep_if _ (λ b. not (drops_fileless before tag w.db b)) w.db.artifacts a found
            (kept _ _ tagged),
        spared_version (drops_fileless before tag w.db) w.db v
            (λ b same. guarded_off _ _ (marked b.id same)) there,
      )),
  clean_up-Post (λ u. Holds a v u.db) parse_time _
      (λ before. delete_versions_without_files before tag) older_than w (λ fs. (found, there))
      (λ fs before. (
        found,
        find-keep_if _ (λ u. not (drops_bare before tag w.db u)) w.db.versions v there
            (kept _ _ (marked v.artifact_id refl)),
      )),
)
  where
    kept : (x y : Bool) → y ≡ true → not (x && not y) ≡ true
    kept x y e = ground arith

    marked : (i : ℕ) → i ≡ v.artifact_id → has_tag tag w.db i ≡ true
    marked i same = ap (has_tag tag w.db) (same ∙ under) ∙ tagged
