-- ===== src/Handlers/Bulk/Exact.antt =====
-- Which rows a bulk delete removes.
use fusion_index.Prelude.{
  ℕ, ◌≡◌, refl, sym, ◌∙◌, ap, Bool, false, not, ◌&&◌, ◌||◌, ◌⊎◌, inl, inr, Option, none, some,
  is_some, List, [], ◌∷◌, Text, arith, All-map, All-of_each, exists, exists-keep_if, exists-map,
  exists_cong, ◌==◌,
}
use fusion_index.Db.{Db, Version, delete_versions}
use fusion_index.Db.Versions.{find_version, is_protected, listed, is_deleted}
use fusion_index.Db.Keys.{IsKeyed, exists-at_id, delete_versions_cong}
use fusion_index.Db.Filtered.{VersionFilter, insert_row, sort_rows, selects, to_row}
use fusion_index.Session.{World}
use fusion_index.Handlers.Bulk.{FilterQuery, parse_version_filter, candidates, ids_of, bulk_delete}
use fusion_index.Handlers.Bulk.Atomic.{target, Outcome, purge-Outcome}
use fusion_index.Handlers.Transaction.{kept, purged}
use fusion_index.Handlers.Transaction.{IsSame}
use fusion_index.Handlers.Bulk.Rule.{rows_of, bulk_delete-rule}

exists-insert_row :
    (p : Version → Bool) (v : Version) (us : List Version)
    → exists p (insert_row v us) ≡ (p v || exists p us)
unfolding exists insert_row
exists-insert_row p v [] = refl
exists-insert_row p v (u ∷ us) = ground (arith, exists-insert_row p v us)

-- Ordering the rows loses none and adds none.
pub exists-sort_rows :
    (p : Version → Bool) (vs : List Version) → exists p (sort_rows vs) ≡ exists p vs
unfolding exists sort_rows
exists-sort_rows p [] = refl
exists-sort_rows p (v ∷ vs) =
    exists-insert_row p v (sort_rows vs) ∙ ap (λ b. p v || b) (exists-sort_rows p vs)

-- What a filter matches and protection does not keep.
unfoldable pub deletable : Option ℕ → VersionFilter → Text → Db → Version → Bool
deletable artifact_id params tag db v =
    selects artifact_id params db v && not (is_protected tag db v)

regroup : (a b c : Bool) → ((a && not b) && (c && not (false && b))) ≡ (a && (c && not b))
regroup a b c = ground arith

twice_not : (a b : Bool) → ((a && not b) && not b) ≡ (a && not b)
twice_not a b = ground arith

module _ (artifact_id : Option ℕ) (params : VersionFilter) (tag : Text) (db : Db) where
  listed-candidates :
      (id : ℕ)
      → listed (ids_of (candidates (rows_of artifact_id params tag db))) id
        ≡ exists (λ v. v.id == id && deletable artifact_id params tag db v) db.versions
  unfolding listed ids_of candidates rows_of to_row deletable
  listed-candidates id =
      exists-map (λ i. i == id) (λ r. r.version.id) _
      ∙ exists-keep_if (λ r. r.version.id == id) (λ r. not r.protected) _
      ∙ exists-map (λ r. r.version.id == id && not r.protected) (to_row tag db) _
      ∙ exists-sort_rows (λ v. v.id == id && not (is_protected tag db v)) _
      ∙ exists-keep_if (λ v. v.id == id && not (is_protected tag db v)) _ db.versions
      ∙ exists_cong _ (λ v. v.id == id && deletable artifact_id params tag db v) db.versions
          (All-of_each
            (λ v. regroup (v.id == id) (is_protected tag db v) (selects artifact_id params db v))
            db.versions)

  target_at :
      IsKeyed db
      → (v : Version) → find_version v.id db ≡ some v
      → target tag (candidates (rows_of artifact_id params tag db)) db v
        ≡ deletable artifact_id params tag db v
  unfolding is_deleted
  target_at keyed v found =
      ap (λ b. b && not (is_protected tag db v))
        (listed-candidates v.id
          ∙ exists-at_id db keyed (deletable artifact_id params tag db) v found)
      ∙ (unfold deletable in twice_not (selects artifact_id params db v) (is_protected tag db v))

  pub purged-eq-deletable :
      IsKeyed db
      → delete_versions (target tag (candidates (rows_of artifact_id params tag db)) db) db
        ≡ delete_versions (deletable artifact_id params tag db) db
  purged-eq-deletable keyed =
      delete_versions_cong _ (deletable artifact_id params tag db) db
        (All-map (target_at keyed) db.versions keyed)

-- Either the tables are as they were, or gone are exactly the versions that the filter matches
-- and protection does not keep.
abbrev pub Deletes : Option ℕ → VersionFilter → Text → Db → Db → Type 0
Deletes artifact_id params tag db db' =
    (db' ≡ db) ⊎ (db' ≡ delete_versions (deletable artifact_id params tag db) db)

-- A bulk delete, whichever of its calls fail, leaves the tables as they were or removes exactly the
-- versions that match its filter and are not protected, with their files and tags.
pub bulk_delete-Deletes :
    (parse_time : Text → Option ℕ) (tag : Text) (artifact_id : Option ℕ) (q : FilterQuery)
    (w : World) (params : VersionFilter)
    → w.saved ≡ none
    → IsKeyed w.db
    → parse_version_filter parse_time (is_some artifact_id) q ≡ some params
    → Deletes artifact_id params tag w.db (bulk_delete parse_time tag artifact_id q w).1.db
bulk_delete-Deletes parse_time tag artifact_id q w params idle keyed parsed =
    bulk_delete-rule (λ u. Deletes artifact_id params tag w.db u.db) tag w (λ u s. inl s.rows)
      parse_time artifact_id q idle
      (λ params' u parsed' set wet s.
        let same : params' ≡ params = cc (sym parsed' ∙ parsed) in
        rw same (
          go u s (purge-Outcome tag (candidates (rows_of artifact_id params tag w.db)) u s.idle).0))
  where
    go :
        (u : World)
        → IsSame w u
        → {u' : World} → Outcome tag (candidates (rows_of artifact_id params tag w.db)) u u'
        → Deletes artifact_id params tag w.db u'.db
    go u s (kept _ e _) = inl (e ∙ s.rows)
    go u s (purged _ e _) = inr (
        e
        ∙ ap
            (λ d.
              delete_versions (target tag (candidates (rows_of artifact_id params tag w.db)) d) d)
            s.rows
        ∙ purged-eq-deletable artifact_id params tag w.db keyed)
