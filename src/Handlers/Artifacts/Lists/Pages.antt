-- ===== src/Handlers/Artifacts/Lists/Pages.antt =====
-- The pages of the artifact list of internal/api/handlers/artifacts.go.
use fusion_index.Prelude.{
  ℕ, zero, suc, ◌*◌, ◌^◌, ◌≤◌, ◌<◌, ◌≡◌, refl, sym, ap, ◌∙◌, Bool, List, [], ◌∷◌, ◌++◌, map, Text,
  arith, length, keep_if,
}
use mathlib.Core.Path.{subst}
use fusion_index.Db.{DbResult, ok, err, Db, Artifact, ArtifactType}
use fusion_index.Db.Pages.{insert_by, order_by, page_of}
use fusion_index.Db.Listed.{
  matches_artifact, artifact_before, list_artifact_types_by_artifact_ids,
  list_registry_artifacts_filtered, count_registry_artifacts_filtered,
}
use fusion_index.Session.{World, run, next_fate, perform}
use fusion_index.Handlers.{Step, next, failed, continue, step_of, internal_error}
use fusion_index.Handlers.Params.{Page, row_limit, row_offset}
use fusion_index.Handlers.Params.Walk.{collected, walk, page_ok, walk_complete}
use fusion_index.Handlers.Admin.{PageResponse}
use fusion_index.Handlers.Artifacts.Lists.{
  ArtifactList, ArtifactResponse, batch_fetch_types, with_types, complete_page, list_filtered,
}

-- The artifacts that an answer shows.
abbrev shown : Step (PageResponse ArtifactResponse) → List Artifact
shown (next r) = map (λ i. i.artifact) r.items
shown (failed code) = []

-- The answer is a page with this total.
abbrev pub HasTotal : ℕ → Step (PageResponse ArtifactResponse) → Type 0
HasTotal n (next r) = r.total ≡ n
HasTotal n (failed code) = ⊥

module _ (name_before ilike : Text → Text → Bool) (l : ArtifactList) where
  -- Every artifact that matches the filter, in order.
  abbrev pub all_matching : Db → List Artifact
  all_matching db =
      order_by (artifact_before name_before l.sort l.desc db)
        (keep_if (matches_artifact ilike l.filter db) db.artifacts)

  abbrev page_at : ℕ → ℕ → Page
  page_at size k = record { page = k; page_size = size }

  abbrev answer : World → ℕ → ℕ → Step (PageResponse ArtifactResponse)
  answer w size k = (list_filtered name_before ilike (page_at size k) l w).0

  -- What `m` requests show, one for each page from page `k` on.
  unfoldable pub browse : World → ℕ → ℕ → ℕ → List Artifact
  browse w size k zero = []
  browse w size k (suc m) = shown (answer w size k) ++ browse w size (suc k) m

  with_types-artifact :
      (rows : List (ℕ × ArtifactType)) (xs : List Artifact)
      → map (λ i. i.artifact) (map (with_types rows) xs) ≡ xs
  unfolding with_types
  with_types-artifact rows [] = refl
  with_types-artifact rows (x ∷ xs) = ap (λ ys. x ∷ ys) (with_types-artifact rows xs)

  -- An answer shows these artifacts, and is a page with the total where its rows are read.
  abbrev Shows : DbResult (List Artifact) → ℕ → Step (PageResponse ArtifactResponse) → Type 0
  Shows rows n r = (shown r ≡ collected rows) × ((xs : List Artifact) → rows ≡ ok xs → HasTotal n r)

  abbrev total : Db → ℕ
  total db = length (keep_if (matches_artifact ilike l.filter db) db.artifacts)

  complete_page-Shows :
      (w : World) (p : Page) (xs : List Artifact)
      → Shows
          (ok xs)
          (total w.db)
          (complete_page name_before ilike p l.filter xs (record w { fates = [] })).0
  unfolding complete_page count_registry_artifacts_filtered run next_fate perform batch_fetch_types
      list_artifact_types_by_artifact_ids
  complete_page-Shows w p [] = (refl, λ _ _. refl)
  complete_page-Shows w p (x ∷ xs) = (with_types-artifact _ (x ∷ xs), λ _ _. refl)

  continued :
      (w : World) (p : Page) (r : DbResult (List Artifact))
      → Shows r
          (total w.db)
          (continue
            (step_of internal_error r, record w { fates = [] })
            (complete_page name_before ilike p l.filter)).0
  continued w p (ok xs) = complete_page-Shows w p xs
  continued w p (err e) = (refl, λ xs h. cc h)

  -- Where no call fails, an answer shows the rows of its page, and the number of all that match.
  answer-Shows :
      (w : World) (size k : ℕ)
      → w.fates ≡ []
      → Shows
          (page_of (row_limit (page_at size k)) (row_offset (page_at size k)) (all_matching w.db))
          (total w.db)
          (answer w size k)
  unfolding list_filtered list_registry_artifacts_filtered run next_fate perform
  answer-Shows w size k calm =
      subst
        (λ v.
          Shows
            (page_of (row_limit (page_at size k)) (row_offset (page_at size k)) (all_matching v.db))
            (total v.db) (answer v size k))
        (sym (λ i. record w { fates = calm i })) (continued w (page_at size k) _)

  browse-walk :
      (w : World) (size k m : ℕ)
      → w.fates ≡ []
      → browse w size k m ≡ walk size k m (all_matching w.db)
  unfolding browse walk
  browse-walk w size k zero calm = refl
  browse-walk w size k (suc m) calm =
      ap (λ xs. xs ++ browse w size (suc k) m) (answer-Shows w size k calm).0
      ∙ ap
          (λ xs.
            collected (
              page_of (row_limit (page_at size k)) (row_offset (page_at size k))
                (all_matching w.db))
            ++ xs)
          (browse-walk w size (suc k) m calm)

  length-insert_by :
      (before : Artifact → Artifact → Bool) (x : Artifact) (xs : List Artifact)
      → length (insert_by before x xs) ≡ suc (length xs)
  unfolding insert_by
  length-insert_by before x [] = refl
  length-insert_by before x (y ∷ ys) = ground (arith, length-insert_by before x ys)

  length-order_by :
      (before : Artifact → Artifact → Bool) (xs : List Artifact)
      → length (order_by before xs) ≡ length xs
  unfolding order_by
  length-order_by before [] = refl
  length-order_by before (x ∷ xs) =
      length-insert_by before x (order_by before xs) ∙ ap suc (length-order_by before xs)

-- Where no call fails, every page of the artifact list whose offset is below 2^31 is answered and tells the
-- number of the artifacts that match the filter, also a page past the last; and the pages, as many as it
-- takes, show each of them once and in order, where the number of rows that they have room for is below 2^31.
pub list_filtered_complete :
    (name_before ilike : Text → Text → Bool) (l : ArtifactList) (size m : ℕ) (w : World)
    → w.fates ≡ []
    → size < 2 ^ 31
    → m * size < 2 ^ 31
    → length (keep_if (matches_artifact ilike l.filter w.db) w.db.artifacts) ≤ m * size
    → (browse name_before ilike l w size 0 m ≡ all_matching name_before ilike l w.db)
      × ((k : ℕ)
          → k * size < 2 ^ 31
          → HasTotal
              (length (keep_if (matches_artifact ilike l.filter w.db) w.db.artifacts))
              (list_filtered name_before ilike (record { page = k; page_size = size }) l w).0)
list_filtered_complete name_before ilike l size m w calm h hm fits = (
  browse-walk name_before ilike l w size 0 m calm
      ∙ walk_complete size m (all_matching name_before ilike l w.db) h hm (
          omega (
            arith,
            fits,
            length-order_by name_before ilike l (artifact_before name_before l.sort l.desc w.db)
                (keep_if (matches_artifact ilike l.filter w.db) w.db.artifacts),
          )),
  λ k near.
      (answer-Shows name_before ilike l w size k calm).1 _
        (page_ok size k (all_matching name_before ilike l w.db) h near),
)
