-- ===== src/Handlers/Admin/Counts.antt =====
-- What the clean-ups of internal/api/handlers/admin.go answer.
use fusion_index.Prelude.{
  ℕ, ◌-◌, ◌≡◌, refl, ap, ◌∙◌, Bool, ◌&&◌, not, Option, some, List, [], Text, arith, length, keep_if,
  length-keep_if_split,
}
use fusion_index.Db.{Db, ok, delete_artifacts, delete_versions}
use fusion_index.Db.Cleanup.{
  has_tag, is_versionless, is_fileless, is_bare, drops_versionless, drops_fileless, drops_bare,
  count_empty_artifacts, delete_empty_artifacts, count_artifacts_without_files,
  delete_artifacts_without_files, count_versions_without_files, delete_versions_without_files,
}
use fusion_index.Session.{World, run, next_fate, perform}
use fusion_index.Handlers.{Step, next}
use fusion_index.Handlers.Params.{parse_older_than}
use fusion_index.Handlers.Admin.{
  CleanupResponse, respond, skipped_of, clean_up, delete_empty, delete_fileless, delete_bare,
}

-- Where no call fails, the answer is made of the two counts.
clean_up-answer :
    (parse_time : Text → Option ℕ) (p q : ℕ → Db → ℕ) (d : ℕ → Db → Db) (older_than : Text)
    (before : ℕ) (w : World)
    → parse_older_than parse_time older_than ≡ some before
    → w.fates ≡ []
    → (clean_up parse_time
        (λ before now db. (ok (p before db), db))
        (λ before now db. (ok (q before db), d before db))
        older_than
        w).0
      ≡ next (respond (p before w.db) (q before w.db))
unfolding run next_fate perform
clean_up-answer parse_time p q d older_than before w h calm = rw (h, calm) refl

split-respond :
    {A : Type 0} (p q : A → Bool) (xs : List A)
    → respond (length (keep_if p xs)) (length (keep_if (λ x. p x && not (q x)) xs)) ≡ record {
      deleted = length (keep_if (λ x. p x && not (q x)) xs);
      skipped = length (keep_if (λ x. p x && q x) xs);
    }
unfolding respond skipped_of
split-respond p q xs i = record {
  deleted = length (keep_if (λ x. p x && not (q x)) xs);
  skipped = rest i;
}
  where
    rest :
        length (keep_if p xs) - length (keep_if (λ x. p x && not (q x)) xs)
        ≡ length (keep_if (λ x. p x && q x) xs)
    rest = omega (arith, length-keep_if_split p q xs)

-- Where no call fails, the tables are those of the delete.
clean_up-tables :
    (parse_time : Text → Option ℕ) (p q : ℕ → Db → ℕ) (d : ℕ → Db → Db) (older_than : Text)
    (before : ℕ) (w : World)
    → parse_older_than parse_time older_than ≡ some before
    → w.fates ≡ []
    → (clean_up parse_time
        (λ before now db. (ok (p before db), db))
        (λ before now db. (ok (q before db), d before db))
        older_than
        w).1.db
      ≡ d before w.db
unfolding run next_fate perform
clean_up-tables parse_time p q d older_than before w h calm = rw (h, calm) refl

-- Of the rows of a condition, those that are not spared are gone and counted as deleted, and those that are
-- spared are counted as skipped.
abbrev pub Sweeps :
    {A : Type 0} (is_due is_spared : A → Bool) (rows rows_after : List A)
    → Step CleanupResponse
    → Type 0
Sweeps is_due is_spared rows rows_after answer =
    (answer
      ≡ next (record {
        deleted = length (keep_if (λ x. is_due x && not (is_spared x)) rows);
        skipped = length (keep_if (λ x. is_due x && is_spared x) rows);
      }))
    × (rows_after ≡ keep_if (λ x. not (is_due x && not (is_spared x))) rows)

-- Where no call fails and the bound on the age is read, each clean-up of artifacts or of versions removes
-- exactly the rows of its condition that the protection tag does not spare, and answers with their number as
-- deleted, and as skipped with the number of those that the tag has spared.
pub clean_ups-answer :
    (parse_time : Text → Option ℕ) (tag older_than : Text) (before : ℕ) (w : World)
    → parse_older_than parse_time older_than ≡ some before
    → w.fates ≡ []
    → Sweeps
        (is_versionless before w.db)
        (λ a. has_tag tag w.db a.id)
        w.db.artifacts
        (delete_empty parse_time tag older_than w).1.db.artifacts
        (delete_empty parse_time tag older_than w).0
      × Sweeps
          (is_fileless before w.db)
          (λ a. has_tag tag w.db a.id)
          w.db.artifacts
          (delete_fileless parse_time tag older_than w).1.db.artifacts
          (delete_fileless parse_time tag older_than w).0
      × Sweeps
          (is_bare before w.db)
          (λ v. has_tag tag w.db v.artifact_id)
          w.db.versions
          (delete_bare parse_time tag older_than w).1.db.versions
          (delete_bare parse_time tag older_than w).0
unfolding delete_empty delete_fileless delete_bare count_empty_artifacts delete_empty_artifacts
    count_artifacts_without_files delete_artifacts_without_files count_versions_without_files
    delete_versions_without_files drops_versionless drops_fileless drops_bare delete_artifacts
    delete_versions
clean_ups-answer parse_time tag older_than before w h calm = (
  (
    clean_up-answer parse_time _ _ _ older_than before w h calm
        ∙ ap next (
            split-respond (is_versionless before w.db) (λ a. has_tag tag w.db a.id) w.db.artifacts),
    ap (λ (d : Db). d.artifacts) (clean_up-tables parse_time _ _ _ older_than before w h calm),
  ),
  (
    clean_up-answer parse_time _ _ _ older_than before w h calm
        ∙ ap next
            (split-respond (is_fileless before w.db) (λ a. has_tag tag w.db a.id) w.db.artifacts),
    ap (λ (d : Db). d.artifacts) (clean_up-tables parse_time _ _ _ older_than before w h calm),
  ),
  (
    clean_up-answer parse_time _ _ _ older_than before w h calm
        ∙ ap next (
            split-respond (is_bare before w.db) (λ v. has_tag tag w.db v.artifact_id)
              w.db.versions),
    ap (λ (d : Db). d.versions) (clean_up-tables parse_time _ _ _ older_than before w h calm),
  ),
)
