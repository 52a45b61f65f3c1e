-- ===== src/Handlers/Bulk/Rule.antt =====
-- What the bulk delete does, up to what the transaction does with the rows that were listed.
use fusion_index.Prelude.{
  ℕ, ◌≡◌, refl, Bool, true, false, Option, none, some, is_some, List, [], Text, arith, ◌||◌,
  Bool-cases, inl, inr,
}
use fusion_index.Db.{Db, ok}
use fusion_index.Db.Filtered.{VersionFilter, FilteredRow, list_versions_filtered}
use fusion_index.Session.{World, run}
use fusion_index.Handlers.{pure, ◌or◌, internal_error}
use fusion_index.Handlers.Post.{
  Post, Post-continue, Post-require, Post-world, Post-of_world, run-Post,
}
use fusion_index.Handlers.Transaction.{IsSame}
use fusion_index.Handlers.Bulk.{
  FilterQuery, parse_version_filter, any_set, is_true, candidates, ids_of, is_empty, purge,
  deletion_response, delete_rows, filtered, bulk_delete,
}

-- The rows that the shared query answers with for a bulk delete.
unfoldable pub rows_of : Option ℕ → VersionFilter → Text → Db → List FilteredRow
unfolding list_versions_filtered
rows_of artifact_id params tag db =
    elim ((list_versions_filtered artifact_id params tag false 0 db).0) [ ok rows ↦ rows | _ ↦ [] ]

module _ (P : World → Type 0) (tag : Text) (w : World) (same : (u : World) → IsSame w u → P u) where
  delete_rows-Post :
      (dry : Bool) (rows : List FilteredRow) (u : World)
      → IsSame w u
      → (dry ≡ false → P (purge tag (candidates rows) u).1)
      → Post (λ _ v. P v) P (delete_rows tag dry rows u)
  unfolding delete_rows
  delete_rows-Post dry rows u s purged =
      elim (Bool-cases (dry || is_empty (ids_of (candidates rows)))) [
        | inl stop ↦ rw stop (same u s)
        | inr go ↦ rw go (
            Post-continue (λ _ v. P v) (λ _ v. P v) P (purge tag (candidates rows) u)
              (λ deleted. pure (deletion_response rows deleted))
              (Post-of_world P (purge tag (candidates rows) u) (purged (ground arith)))
              (λ deleted v h. h))
      ]

  abbrev Listed : Option ℕ → VersionFilter → List FilteredRow → World → Type 0
  Listed artifact_id params rows u = IsSame w u × (rows ≡ rows_of artifact_id params tag w.db)

  list-Listed :
      (artifact_id : Option ℕ) (params : VersionFilter)
      → w.saved ≡ none
      → Post
          (Listed artifact_id params)
          P
          ((run (list_versions_filtered artifact_id params tag false) or internal_error) w)
  unfolding list_versions_filtered rows_of
  list-Listed artifact_id params idle =
      run-Post (Listed artifact_id params) P internal_error
        (list_versions_filtered artifact_id params tag false) w
        (λ fs. (record { rows = refl; objects = refl; idle = idle }, refl))
        (λ fs. same _ (record { rows = refl; objects = refl; idle = idle }))
        (λ fs. same _ (record { rows = refl; objects = refl; idle = idle }))

  filtered-Post :
      (artifact_id : Option ℕ) (q : FilterQuery) (params : VersionFilter)
      → w.saved ≡ none
      → ((u : World)
          → any_set params ≡ true
          → is_true q.dry_run ≡ false
          → IsSame w u
          → P (purge tag (candidates (rows_of artifact_id params tag w.db)) u).1)
      → Post (λ _ v. P v) P (filtered tag artifact_id q params w)
  unfolding filtered
  filtered-Post artifact_id q params idle purged = elim (Bool-cases (any_set params)) [
    | inl set ↦ rw set (
        Post-continue (Listed artifact_id params) (λ _ v. P v) P
          ((run (list_versions_filtered artifact_id params tag false) or internal_error) w)
          (λ rows. delete_rows tag (is_true q.dry_run) rows) (list-Listed artifact_id params idle)
          (λ rows u (s, e).
            delete_rows-Post (is_true q.dry_run) rows u s (λ wet. rw e (purged u set wet s))))
    | inr unset ↦ rw unset (same w (record { rows = refl; objects = refl; idle = idle }))
  ]

  pub bulk_delete-rule :
      (parse_time : Text → Option ℕ) (artifact_id : Option ℕ) (q : FilterQuery)
      → w.saved ≡ none
      → ((params : VersionFilter) (u : World)
          → parse_version_filter parse_time (is_some artifact_id) q ≡ some params
          → any_set params ≡ true
          → is_true q.dry_run ≡ false
          → IsSame w u
          → P (purge tag (candidates (rows_of artifact_id params tag w.db)) u).1)
      → P (bulk_delete parse_time tag artifact_id q w).1
  unfolding bulk_delete
  bulk_delete-rule parse_time artifact_id q idle purged =
      Post-world P (bulk_delete parse_time tag artifact_id q w) (
        Post-require (λ _ v. P v) P 400 (parse_version_filter parse_time (is_some artifact_id) q) _
          w (same w (record { rows = refl; objects = refl; idle = idle }))
          (λ params parsed.
            filtered-Post artifact_id q params idle
              (λ u set wet s. purged params u parsed set wet s)))
