-- ===== src/Handlers/Bulk/Atomic.antt =====
-- The transaction of the bulk delete: all of its rows go or none, and objects only after a commit.
use fusion_index.Prelude.{
  ℕ, ◌≡◌, ◌∙◌, sym, refl, ap, Bool, true, ◌&&◌, ◌==◌, ==_refl, none, List, map, Text, keep_if,
  exists, exists-map, exists-keep_if, exists_each, All, All-of_map, All-keep_if,
}
use fusion_index.Db.{Db, Version, File, delete_versions}
use fusion_index.Db.Versions.{listed, is_deleted, delete_unprotected_versions_by_ids}
use fusion_index.Db.Files.{list_files_by_version_ids}
use fusion_index.Db.Filtered.{FilteredRow}
use fusion_index.Session.{World, run, commit}
use fusion_index.Handlers.{◌or◌, internal_error}
use fusion_index.Handlers.Post.{Post, Post-continue, run-Post, begin-Post, Post-world}
use fusion_index.Handlers.Transaction.{
  Settled, kept, InTransaction, Committed, Failed, before_commit, commit-Committed, Cleaned,
  rollback-Settled,
}
use fusion_index.Handlers.Bulk.{Purged, purge_rows, purge_all, purge, doomed_paths, path_of, ids_of}

-- The rows that the statement deletes from `d`, and the objects that go with them.
abbrev pub target : Text → List FilteredRow → Db → Version → Bool
target tag cands d = is_deleted (ids_of cands) tag d

unfoldable pub deleted_ids : Text → List FilteredRow → Db → List ℕ
deleted_ids tag cands d = map (λ v. v.id) (keep_if (target tag cands d) d.versions)

unfoldable pub doomed : Text → List FilteredRow → Db → List Text
unfolding deleted_ids
doomed tag cands d =
    doomed_paths cands (deleted_ids tag cands d)
      (keep_if (λ f. listed (ids_of cands) f.version_id) d.files)

abbrev purged_db : Text → List FilteredRow → Db → Db
purged_db tag cands d = delete_versions (target tag cands d) d

-- Either nothing has changed, or all the rows are gone and at most the doomed objects with them.
abbrev pub Outcome : Text → List FilteredRow → World → World → Type 0
Outcome tag cands w w' = Settled (purged_db tag cands w.db) (doomed tag cands w.db) w w'

module _ (tag : Text) (cands : List FilteredRow) (w : World) where
  abbrev Within : Db → World → Type 0
  Within d v = InTransaction (purged_db tag cands w.db) (doomed tag cands w.db) w d v

  abbrev Purge : World → Type 0
  Purge v = Committed (purged_db tag cands w.db) (doomed tag cands w.db) w v

  abbrev Fails : World → Type 0
  Fails v = Failed (purged_db tag cands w.db) (doomed tag cands w.db) w v

  abbrev Listed : List File → World → Type 0
  Listed files u =
      Within w.db u × (files ≡ keep_if (λ f. listed (ids_of cands) f.version_id) w.db.files)

  abbrev Deleted : List ℕ → World → Type 0
  Deleted ids u = Within (purged_db tag cands w.db) u × (ids ≡ deleted_ids tag cands w.db)

  list-Listed :
      (v : World)
      → Within w.db v
      → Post Listed Fails ((run (list_files_by_version_ids (ids_of cands)) or internal_error) v)
  unfolding list_files_by_version_ids
  list-Listed v h =
      run-Post Listed Fails internal_error (list_files_by_version_ids (ids_of cands)) v
        (λ fs. (record { rows = h.rows; restores = h.restores; objects = h.objects }, rw h.rows))
        (λ fs. before_commit (ap (λ d. d.sequences) h.rows) h.restores h.objects)
        (λ fs. before_commit (ap (λ d. d.sequences) h.rows) h.restores h.objects)

  delete-Deleted :
      (v : World)
      → Within w.db v
      → Post Deleted Fails
          ((run (delete_unprotected_versions_by_ids (ids_of cands) tag) or internal_error) v)
  unfolding delete_unprotected_versions_by_ids deleted_ids delete_versions
  delete-Deleted v h =
      run-Post Deleted Fails internal_error (delete_unprotected_versions_by_ids (ids_of cands) tag)
        v
        (λ fs. (record { rows = rw h.rows; restores = h.restores; objects = h.objects }, rw h.rows))
        (λ fs. before_commit (ap (λ d. d.sequences) h.rows) h.restores h.objects)
        (λ fs. before_commit (ap (λ d. d.sequences) h.rows) h.restores h.objects)

  commit-Purge :
      (v : World)
      → Within (purged_db tag cands w.db) v
      → Post (λ _ u. Purge u) Fails ((commit or internal_error) v)
  unfolding delete_versions
  commit-Purge v h = commit-Committed (purged_db tag cands w.db) (doomed tag cands w.db) w v refl h

  abbrev Done : Purged → World → Type 0
  Done done u =
      Purge u
      × (done.deleted_ids ≡ deleted_ids tag cands w.db)
      × (done.files ≡ keep_if (λ f. listed (ids_of cands) f.version_id) w.db.files)

  purge_rows-Done : (v : World) → Within w.db v → Post Done Fails (purge_rows tag (ids_of cands) v)
  unfolding purge_rows
  purge_rows-Done v h = Post-continue Listed Done Fails _ _ (list-Listed v h) λ files u k.
      Post-continue Deleted Done Fails _ _ (delete-Deleted u k.0) λ ids x l.
        Post-continue (λ _ y. Purge y) Done Fails _ _ (commit-Purge x l.0) λ _ y m. (m, l.1, k.1)

  purge_all-Cleaned :
      (v : World)
      → Within w.db v
      → Post
          (λ _ u. Cleaned (purged_db tag cands w.db) (doomed tag cands w.db) w u)
          Fails
          (purge_all tag cands v)
  unfolding purge_all
  purge_all-Cleaned v h =
      Post-continue Done (λ _ u. Cleaned (purged_db tag cands w.db) (doomed tag cands w.db) w u)
        Fails _ _ (purge_rows-Done v h)
        λ done u k. (
          u,
          doomed_paths cands done.deleted_ids done.files,
          k.0,
          unfold doomed in rw (k.1, k.2),
          refl,
        )

-- The object of a file in the table, whose version is among the candidates and is deleted.
abbrev pub IsOfDeleted : Text → List FilteredRow → Db → Text → Type 0
IsOfDeleted tag cands d p =
    (f : File) × (p ≡ path_of cands f)
    × (exists (λ g. g.id == f.id) d.files ≡ true)
    × (exists (λ v. v.id == f.version_id && target tag cands d v) d.versions ≡ true)

path-IsOfDeleted :
    (tag : Text) (cands : List FilteredRow) (d : Db) (f : File)
    → exists (λ g. g.id == f.id) d.files ≡ true
    → listed (deleted_ids tag cands d) f.version_id ≡ true
    → IsOfDeleted tag cands d (path_of cands f)
unfolding deleted_ids listed
path-IsOfDeleted tag cands d f there deleted = (
  f,
  refl,
  there,
  sym (
        exists-map (λ i. i == f.version_id) (λ (v : Version). v.id)
          (keep_if (target tag cands d) d.versions)
        ∙ exists-keep_if (λ v. v.id == f.version_id) (target tag cands d) d.versions)
      ∙ deleted,
)

doomed-IsOfDeleted :
    (tag : Text) (cands : List FilteredRow) (d : Db)
    → All (IsOfDeleted tag cands d) (doomed tag cands d)
unfolding doomed doomed_paths
doomed-IsOfDeleted tag cands d = All-of_map (IsOfDeleted tag cands d) (path_of cands) _ (
    All-keep_if (λ f. listed (deleted_ids tag cands d) f.version_id)
      (λ f there deleted. path-IsOfDeleted tag cands d f there deleted) _
      (All-keep_if (λ f. listed (ids_of cands) f.version_id) (λ f there _. there) d.files
        (exists_each (λ f g. g.id == f.id) d.files (λ f. ==_refl f.id))))

settled :
    (tag : Text) (cands : List FilteredRow) (w : World)
    → w.saved ≡ none
    → Outcome tag cands w (purge tag cands w).1
unfolding purge
settled tag cands w idle = Post-world (Outcome tag cands w) (purge tag cands w) (
    Post-continue (λ _ u. Within tag cands w w.db u) (λ _ u. Outcome tag cands w u)
      (Outcome tag cands w) _ _
      (begin-Post _ (Outcome tag cands w) internal_error w
        (λ fs. record { rows = refl; restores = refl; objects = refl }) (λ fs. kept idle refl refl))
      (λ _ u h.
        rollback-Settled (purged_db tag cands w.db) (doomed tag cands w.db) w (purge_all tag cands)
          u (purge_all-Cleaned tag cands w u h)))

pub purge-Outcome :
    (tag : Text) (cands : List FilteredRow) (w : World)
    → w.saved ≡ none
    → Outcome tag cands w (purge tag cands w).1
      × All (IsOfDeleted tag cands w.db) (doomed tag cands w.db)
purge-Outcome tag cands w idle = (settled tag cands w idle, doomed-IsOfDeleted tag cands w.db)
