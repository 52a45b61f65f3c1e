-- ===== src/Handlers/Bulk/Spares.antt =====
-- What a bulk delete never removes.
use fusion_index.Prelude.{
  ℕ, ◌≤◌, ◌≡◌, ◌≢◌, sym, ◌∙◌, ap, Bool, true, false, not, inl, inr, Option, none, some, is_some,
  Text, arith, find-keep_if, ◌==◌,
}
use fusion_index.Strconv.{pos}
use fusion_index.Db.{Db, Version, File, removes_version, delete_versions}
use fusion_index.Db.Versions.{find_version, is_protected}
use fusion_index.Db.Files.{find_file}
use fusion_index.Db.Keys.{IsKeyed, removes_version_at}
use fusion_index.Db.Filtered.{VersionFilter, selects, matches, passes, outside, rank}
use fusion_index.Session.{World}
use mathlib.Core.Bool.{false≢true}
use fusion_index.Handlers.Transaction.{IsSame}
use fusion_index.Handlers.Bulk.Rule.{bulk_delete-rule}
use fusion_index.Handlers.Bulk.{is_true, FilterQuery, parse_version_filter, bulk_delete}
use fusion_index.Handlers.Bulk.Exact.{deletable, Deletes, bulk_delete-Deletes}

-- The version is still found, and so is every file that it had.
pub record Remains (db db' : Db) (v : Version) : Type 0 where
  pub row : find_version v.id db' ≡ some v
  pub files :
      (f : File) → f.version_id ≡ v.id → find_file f.id db ≡ some f → find_file f.id db' ≡ some f

delete_versions-Remains :
    (q : Version → Bool) (db : Db) (v : Version)
    → IsKeyed db
    → find_version v.id db ≡ some v
    → q v ≡ false
    → Remains db (delete_versions q db) v
unfolding delete_versions find_version find_file
delete_versions-Remains q db v keyed found stays = record {
  row = find-keep_if (λ u. u.id == v.id) (λ u. not (q u)) db.versions v found (ap not stays);
  files = λ f e held.
      find-keep_if (λ g. g.id == f.id) (λ g. not (removes_version q db g.version_id)) db.files f
        held (ap not (ap (removes_version q db) e ∙ removes_version_at db keyed q v found ∙ stays));
}

Deletes-Remains :
    (artifact_id : Option ℕ) (params : VersionFilter) (tag : Text) (db db' : Db) (v : Version)
    → IsKeyed db
    → find_version v.id db ≡ some v
    → deletable artifact_id params tag db v ≡ false
    → Deletes artifact_id params tag db db'
    → Remains db db' v
Deletes-Remains artifact_id params tag db db' v keyed found stays (inl e) =
    rw e (record { row = found; files = λ f _ held. held })
Deletes-Remains artifact_id params tag db db' v keyed found stays (inr e) =
    rw e (delete_versions-Remains (deletable artifact_id params tag db) db v keyed found stays)

protected-stays :
    (artifact_id : Option ℕ) (params : VersionFilter) (tag : Text) (db : Db) (v : Version)
    → is_protected tag db v ≡ true
    → deletable artifact_id params tag db v ≡ false
unfolding deletable
protected-stays artifact_id params tag db v p = ground arith

within : (rn k : ℕ) → rn ≤ k → passes (outside rn) (some (pos k)) ≡ false
unfolding passes outside
within rn k le = ground arith

newest-stays :
    (artifact_id : Option ℕ) (params : VersionFilter) (tag : Text) (db : Db) (v : Version) (k : ℕ)
    → params.keep_last ≡ some (pos k)
    → rank db v ≤ k
    → deletable artifact_id params tag db v ≡ false
unfolding deletable selects matches
newest-stays artifact_id params tag db v k e le =
    ground (arith, ap (passes (outside (rank db v))) e ∙ within (rank db v) k le)

elsewhere-stays :
    (artifact_id : Option ℕ) (params : VersionFilter) (tag : Text) (db : Db) (v : Version) (a : ℕ)
    → artifact_id ≡ some a
    → v.artifact_id ≢ a
    → deletable artifact_id params tag db v ≡ false
unfolding deletable selects matches
elsewhere-stays artifact_id params tag db v a e other = rw e (ground (arith, other))

module _ (parse_time : Text → Option ℕ) (tag : Text) (artifact_id : Option ℕ) (q : FilterQuery)
    (w : World) (params : VersionFilter) (v : Version) where
  -- A version that a tag points at, or whose artifact carries the protection tag, outlives every
  -- bulk delete with all its files, whatever the filter and whichever calls fail.
  pub bulk_delete-protected :
      w.saved ≡ none
      → IsKeyed w.db
      → parse_version_filter parse_time (is_some artifact_id) q ≡ some params
      → find_version v.id w.db ≡ some v
      → is_protected tag w.db v ≡ true
      → Remains w.db (bulk_delete parse_time tag artifact_id q w).1.db v
  bulk_delete-protected idle keyed parsed found p =
      Deletes-Remains artifact_id params tag w.db _ v keyed found
        (protected-stays artifact_id params tag w.db v p)
        (bulk_delete-Deletes parse_time tag artifact_id q w params idle keyed parsed)

  -- A bulk delete that keeps the last `k` leaves the `k` newest versions of each artifact, with all
  -- their files, whatever the other filters and whichever calls fail.
  pub bulk_delete-newest :
      (k : ℕ)
      → w.saved ≡ none
      → IsKeyed w.db
      → parse_version_filter parse_time (is_some artifact_id) q ≡ some params
      → params.keep_last ≡ some (pos k)
      → find_version v.id w.db ≡ some v
      → rank w.db v ≤ k
      → Remains w.db (bulk_delete parse_time tag artifact_id q w).1.db v
  bulk_delete-newest k idle keyed parsed last found le =
      Deletes-Remains artifact_id params tag w.db _ v keyed found
        (newest-stays artifact_id params tag w.db v k last le)
        (bulk_delete-Deletes parse_time tag artifact_id q w params idle keyed parsed)

  -- A bulk delete under one artifact removes no version of another one and none of its files,
  -- whatever the filter and whichever calls fail.
  pub bulk_delete-elsewhere :
      (a : ℕ)
      → artifact_id ≡ some a
      → w.saved ≡ none
      → IsKeyed w.db
      → parse_version_filter parse_time (is_some artifact_id) q ≡ some params
      → find_version v.id w.db ≡ some v
      → v.artifact_id ≢ a
      → Remains w.db (bulk_delete parse_time tag artifact_id q w).1.db v
  bulk_delete-elsewhere a e idle keyed parsed found other =
      Deletes-Remains artifact_id params tag w.db _ v keyed found
        (elsewhere-stays artifact_id params tag w.db v a e other)
        (bulk_delete-Deletes parse_time tag artifact_id q w params idle keyed parsed)

-- With dryRun=true a bulk delete changes neither the tables nor the objects.
bulk_delete-dry :
    (parse_time : Text → Option ℕ) (tag : Text) (artifact_id : Option ℕ) (q : FilterQuery)
    (w : World)
    → w.saved ≡ none
    → is_true q.dry_run ≡ true
    → IsSame w (bulk_delete parse_time tag artifact_id q w).1
bulk_delete-dry parse_time tag artifact_id q w idle dry =
    bulk_delete-rule (IsSame w) tag w (λ u s. s) parse_time artifact_id q idle
      (λ params u parsed set wet s. absurd (false≢true (sym wet ∙ dry)))
