-- ===== src/Handlers/Bulk/Calm.antt =====
-- The bulk delete of internal/api/handlers/version_bulk.go with no failing call.
use fusion_index.Prelude.{
  ℕ, ◌≡◌, refl, sym, ap, ◌∙◌, Bool, true, false, not, ◌&&◌, ◌==◌, Option, none, some, is_some, List,
  [], ◌∷◌, Text, All-of_each, exists, exists_false, keep_if_each, arith, Bool-cases, inl, inr,
}
use fusion_index.Db.{Db, Version, File, Tag, removes_version, delete_versions}
use fusion_index.Db.Versions.{is_deleted, listed, delete_unprotected_versions_by_ids}
use fusion_index.Db.Files.{list_files_by_version_ids}
use fusion_index.Db.Keys.{IsKeyed}
use fusion_index.Db.Filtered.{VersionFilter, FilteredRow, list_versions_filtered}
use fusion_index.Session.{
  World, run, next_fate, perform, begin, commit, begin_fate, commit_fate, rollback, remove_all,
}
use fusion_index.Session.Objects.{db-remove_all, saved-remove_all, rollback-idle}
use fusion_index.Handlers.{Step, next, failed, pure, continue}
use fusion_index.Handlers.Bulk.{
  FilterQuery, parse_version_filter, any_set, is_true, is_empty, candidates, ids_of, purge_rows,
  purge_all, purge, delete_rows, filtered, bulk_delete,
}
use fusion_index.Handlers.Bulk.Atomic.{target}
use fusion_index.Handlers.Bulk.Rule.{rows_of}
use fusion_index.Handlers.Bulk.Exact.{deletable, purged-eq-deletable}

-- A delete of no version.
delete_versions-none :
    (p : Version → Bool) (d : Db) → ((v : Version) → p v ≡ false) → delete_versions p d ≡ d
unfolding delete_versions removes_version
delete_versions-none p d h i = record d {
  versions =
      keep_if_each (λ v. not (p v)) d.versions (All-of_each (λ v. ap not (h v)) d.versions) i;
  files = keep_if_each _ d.files (All-of_each (λ (f : File). stays f.version_id) d.files) i;
  tags = keep_if_each _ d.tags (All-of_each (λ (t : Tag). stays t.version_id) d.tags) i;
}
  where
    stays : (n : ℕ) → not (exists (λ v. v.id == n && p v) d.versions) ≡ true
    stays n = ap not (
        exists_false (λ v. v.id == n && p v) d.versions
          (All-of_each (λ v. off (v.id == n) (p v) (h v)) d.versions))
      where
        off : (a b : Bool) → b ≡ false → (a && b) ≡ false
        off a b e = ground arith

empty_ids : (ids : List ℕ) → is_empty ids ≡ true → ids ≡ []
unfolding is_empty
empty_ids [] h = refl
empty_ids (i ∷ ids) h = cc h

-- An answer that is made of another leaves the same world.
answered : {A B : Type 0} (r : Step A × World) (g : A → B) → (continue r (λ a. pure (g a))).1 ≡ r.1
answered (next a, u) g = refl
answered (failed code, u) g = refl

cleaned : (ps : List Text) (v : World) → v.saved ≡ none → (rollback (remove_all ps v)).db ≡ v.db
cleaned ps v idle =
    ap (λ (u : World). u.db) (rollback-idle (remove_all ps v) (saved-remove_all ps v ∙ idle))
    ∙ db-remove_all ps v

module _ (tag : Text) (w : World) where
  -- The world, and no call to come fails.
  abbrev quiet : World
  quiet = record w { fates = [] }

  purge_calm :
      (cands : List FilteredRow)
      → (purge tag cands quiet).1.db ≡ delete_versions (target tag cands w.db) w.db
  unfolding purge purge_all purge_rows run next_fate perform begin commit begin_fate commit_fate
      list_files_by_version_ids delete_unprotected_versions_by_ids
  purge_calm cands = cleaned _ _ refl

  delete_rows_calm :
      (rows : List FilteredRow)
      → (delete_rows tag false rows quiet).1.db
        ≡ delete_versions (target tag (candidates rows) w.db) w.db
  unfolding delete_rows is_deleted listed exists
  delete_rows_calm rows = elim (Bool-cases (is_empty (ids_of (candidates rows)))) [
    | inl stop ↦ rw stop (
        sym (
          delete_versions-none (target tag (candidates rows) w.db) w.db
            (λ v. rw (empty_ids (ids_of (candidates rows)) stop) refl)))
    | inr more ↦ rw more (
        ap (λ (u : World). u.db) (answered (purge tag (candidates rows) quiet) _)
        ∙ purge_calm (candidates rows))
  ]

  bulk_delete-quiet :
      (parse_time : Text → Option ℕ) (artifact_id : Option ℕ) (q : FilterQuery)
      (params : VersionFilter)
      → parse_version_filter parse_time (is_some artifact_id) q ≡ some params
      → any_set params ≡ true
      → is_true q.dry_run ≡ false
      → IsKeyed w.db
      → (bulk_delete parse_time tag artifact_id q quiet).1.db
        ≡ delete_versions (deletable artifact_id params tag w.db) w.db
  unfolding bulk_delete filtered run next_fate perform list_versions_filtered rows_of
  bulk_delete-quiet parse_time artifact_id q params parsed set wet keyed =
      rw (parsed, set, wet)
        (delete_rows_calm (rows_of artifact_id params tag w.db)
          ∙ purged-eq-deletable artifact_id params tag w.db keyed)

-- Where no call fails, at least one filter is set and it is no dry run, a bulk delete removes exactly the
-- versions that its filter matches and protection does not keep.
pub bulk_delete_calm :
    (parse_time : Text → Option ℕ) (tag : Text) (artifact_id : Option ℕ) (q : FilterQuery)
    (params : VersionFilter) (w : World)
    → w.fates ≡ []
    → parse_version_filter parse_time (is_some artifact_id) q ≡ some params
    → any_set params ≡ true
    → is_true q.dry_run ≡ false
    → IsKeyed w.db
    → (bulk_delete parse_time tag artifact_id q w).1.db
      ≡ delete_versions (deletable artifact_id params tag w.db) w.db
bulk_delete_calm parse_time tag artifact_id q params w calm parsed set wet keyed =
    ap (λ fs. (bulk_delete parse_time tag artifact_id q (record w { fates = fs })).1.db) calm
    ∙ bulk_delete-quiet tag w parse_time artifact_id q params parsed set wet keyed
