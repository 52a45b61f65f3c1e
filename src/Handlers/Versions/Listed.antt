-- ===== src/Handlers/Versions/Listed.antt =====
-- The version list of an artifact beside the bulk delete with the same filters.
use fusion_index.Prelude.{
  ℕ, ◌≡◌, refl, sym, ap, ◌∙◌, Bool, true, false, ◌&&◌, ◌⊎◌, inl, inr, Option, none, some, List, [],
  map, Text, All-map, exists, exists-map, exists-keep_if, ◌==◌,
}
use mathlib.Core.Path.{subst}
use fusion_index.Strconv.{pos}
use fusion_index.Db.{Db, Version, Tag, delete_versions}
use fusion_index.Db.Artifacts.{get_registry_artifact}
use fusion_index.Db.Tags.{list_artifact_tags}
use fusion_index.Db.Keys.{IsKeyed, exists-at_id, delete_versions_cong}
use fusion_index.Db.Windowed.{Counted, counted_rows, limited}
use fusion_index.Db.Filtered.{
  VersionFilter, FilteredRow, to_row, matched_rows, list_versions_window,
}
use fusion_index.Session.{World}
use fusion_index.Handlers.{next, internal_error, not_found_or_internal}
use fusion_index.Handlers.Post.{Post, Post-continue, Post-step, run-Post}
use fusion_index.Handlers.Params.{path_id, parse_optional_bool}
use fusion_index.Handlers.Windowed.{plain_rows}
use fusion_index.Handlers.Bulk.{parse_version_filter, any_set, is_true, bulk_delete}
use fusion_index.Handlers.Bulk.Calm.{bulk_delete_calm}
use fusion_index.Handlers.Bulk.Exact.{deletable, exists-sort_rows, bulk_delete-Deletes}
use fusion_index.Handlers.Versions.Lists.{
  VersionQuery, is_set, with_tags, query_versions, list_versions,
}

-- The rows of the list, found by their ids.
abbrev pub shows : List (Version × List Tag) → Version → Bool
shows items v = exists (λ i. i.0.id == v.id) items

shows-rows :
    (tags : List Tag) (rows : List FilteredRow) (v : Version)
    → shows (map (with_tags tags) (plain_rows (counted_rows rows))) v
      ≡ exists (λ r. r.version.id == v.id) rows
unfolding plain_rows counted_rows with_tags
shows-rows tags rows v =
    exists-map (λ i. i.0.id == v.id) (with_tags tags) (plain_rows (counted_rows rows))
    ∙ exists-map (λ r. r.version.id == v.id) (λ (r : Counted FilteredRow). r.row)
        (counted_rows rows)
    ∙ exists-map (λ (r : Counted FilteredRow). r.row.version.id == v.id) _ rows

module _ (artifact_id : Option ℕ) (params : VersionFilter) (tag : Text) (db : Db) where
  matched-deletable :
      (v : Version)
      → exists (λ r. r.version.id == v.id) (matched_rows artifact_id params tag true db)
        ≡ exists (λ u. u.id == v.id && deletable artifact_id params tag db u) db.versions
  unfolding matched_rows deletable to_row
  matched-deletable v =
      exists-map (λ r. r.version.id == v.id) (to_row tag db) _
      ∙ exists-sort_rows (λ u. u.id == v.id) _
      ∙ exists-keep_if (λ u. u.id == v.id) _ db.versions

module _ (parse_time : Text → Option ℕ) (tag : Text) (name_before : Text → Text → Bool)
    (q : VersionQuery) (params : VersionFilter)
    (parsed : parse_version_filter parse_time true q.filters ≡ some params)
    (deletable_set : parse_optional_bool q.deletable ≡ some (some true)) where
  -- The rows that the query answers with.
  abbrev Rows : ℕ → World → List (Counted FilteredRow) → World → Type 0
  Rows artifact_id w rows u =
      (u.db ≡ w.db) × (rows ≡ counted_rows (matched_rows (some artifact_id) params tag true w.db))

  query-Rows :
      (artifact_id : ℕ) (w : World)
      → Post
          (Rows artifact_id w)
          (λ _. Unit)
          (query_versions parse_time tag (some artifact_id) none (pos 0) q w)
  unfolding query_versions list_versions_window limited is_set
  query-Rows artifact_id w =
      rw (parsed, deletable_set)
        (run-Post (Rows artifact_id w) (λ _. Unit) internal_error
          (list_versions_window (some artifact_id) params tag true none (pos 0)) w
          (λ fs. (refl, refl)) (λ fs. tt) (λ fs. tt))

  -- What the bulk delete of these filters selects.
  abbrev Selects : ℕ → Db → List (Version × List Tag) → Type 0
  Selects artifact_id db items =
      (v : Version)
      → shows items v
        ≡ exists (λ u. u.id == v.id && deletable (some artifact_id) params tag db u) db.versions

  selected :
      (artifact_id : ℕ) (w : World) (tags : List Tag) (rows : List (Counted FilteredRow))
      (u : World)
      → Rows artifact_id w rows u
      → Selects artifact_id w.db (map (with_tags tags) (plain_rows rows))
  selected artifact_id w tags rows u (e, same) v = rw same (
      shows-rows tags (matched_rows (some artifact_id) params tag true w.db) v
      ∙ matched-deletable (some artifact_id) params tag w.db v)

  list_versions-Selects :
      (raw_id : Text) (artifact_id : ℕ) (w : World)
      → path_id raw_id ≡ some artifact_id
      → Post
          (λ items _. Selects artifact_id w.db items)
          (λ _. Unit)
          (list_versions parse_time tag name_before raw_id q w)
  unfolding list_versions get_registry_artifact list_artifact_tags
  list_versions-Selects raw_id artifact_id w e = rw e (
      Post-continue (λ _ u. u.db ≡ w.db) (λ items _. Selects artifact_id w.db items) (λ _. Unit) _ _
        (run-Post (λ _ u. u.db ≡ w.db) (λ _. Unit) not_found_or_internal
          (get_registry_artifact artifact_id) w
          (λ fs. Post-step (λ u. u.db ≡ w.db) (λ _. Unit) not_found_or_internal _ _ refl tt)
          (λ fs. tt) (λ fs. tt))
        (λ a u same.
          Post-continue (Rows artifact_id u) (λ items _. Selects artifact_id w.db items) (λ _. Unit)
            _ _ (query-Rows artifact_id u)
            (λ rows v r.
              Post-continue (λ _ _. Unit {0}) (λ items _. Selects artifact_id w.db items)
                (λ _. Unit) _ _
                (run-Post (λ _ _. Unit {0}) (λ _. Unit) internal_error
                  (list_artifact_tags name_before artifact_id) v (λ fs. tt) (λ fs. tt) (λ fs. tt))
                (λ tags _ _.
                  subst (λ db. Selects artifact_id db (map (with_tags tags) (plain_rows rows))) same
                    (selected artifact_id u tags rows v r)))))

-- Where a list of an artifact's versions, with filters and with deletable set, is answered: a bulk
-- delete on the same tables with these filters removes exactly the versions that the list shows, with their
-- files and tags, if no call of it fails, a filter is set and it is no dry run; and otherwise it removes
-- exactly these or leaves the tables as they are.
pub list_versions-Deletes :
    (parse_time : Text → Option ℕ) (tag : Text) (name_before : Text → Text → Bool) (raw_id : Text)
    (q : VersionQuery) (artifact_id : ℕ) (params : VersionFilter) (w w' u : World)
    (items : List (Version × List Tag))
    → path_id raw_id ≡ some artifact_id
    → parse_version_filter parse_time true q.filters ≡ some params
    → parse_optional_bool q.deletable ≡ some (some true)
    → IsKeyed w.db
    → list_versions parse_time tag name_before raw_id q w ≡ (next items, w')
    → u.db ≡ w.db
    → u.saved ≡ none
    → (((bulk_delete parse_time tag (some artifact_id) q.filters u).1.db ≡ w.db)
        ⊎ ((bulk_delete parse_time tag (some artifact_id) q.filters u).1.db
            ≡ delete_versions (shows items) w.db))
      × (u.fates ≡ []
          → any_set params ≡ true
          → is_true q.filters.dry_run ≡ false
          → (bulk_delete parse_time tag (some artifact_id) q.filters u).1.db
            ≡ delete_versions (shows items) w.db)
list_versions-Deletes parse_time tag name_before raw_id q artifact_id params w w' u items e parsed
      set keyed answered same idle =
    let selects : (v : Version)
        → shows items v
          ≡ exists (λ u. u.id == v.id && deletable (some artifact_id) params tag w.db u)
              w.db.versions =
      subst
        (Post
          (λ items _.
            (v : Version)
            → shows items v
              ≡ exists (λ u. u.id == v.id && deletable (some artifact_id) params tag w.db u)
                  w.db.versions)
          (λ _. Unit))
        answered
        (list_versions-Selects parse_time tag name_before q params parsed set raw_id artifact_id w
          e) in
    let exact : delete_versions (deletable (some artifact_id) params tag u.db) u.db
        ≡ delete_versions (shows items) w.db =
      ap (λ db. delete_versions (deletable (some artifact_id) params tag db) db) same
      ∙ sym (
          delete_versions_cong (shows items) (deletable (some artifact_id) params tag w.db) w.db (
            All-map
              (λ v found.
                selects v
                ∙ exists-at_id w.db keyed (deletable (some artifact_id) params tag w.db) v found)
              w.db.versions keyed)) in
    let keyed_too = subst IsKeyed (sym same) keyed in
    (
      elim (bulk_delete-Deletes parse_time tag (some artifact_id) q.filters u params idle keyed_too
          parsed) [ inl kept ↦ inl (kept ∙ same) | inr gone ↦ inr (gone ∙ exact) ],
      λ calm filters wet.
          bulk_delete_calm parse_time tag (some artifact_id) q.filters params u calm parsed filters
            wet keyed_too
          ∙ exact,
    )
