-- ===== src/Handlers/Params/Walk.antt =====
-- The pages of a list, one after the other, with the LIMIT and OFFSET that the handlers compute.
use fusion_index.Prelude.{
  ℕ, zero, suc, ◌+◌, ◌*◌, ◌^◌, ◌≤◌, ◌<◌, ◌≡◌, refl, sym, ap, ◌∙◌, List, [], ◌∷◌, ◌++◌, arith,
  length, take, drop,
}
use fusion_index.Strconv.{pos}
use fusion_index.Db.{DbResult, ok, err}
use fusion_index.Db.Pages.{page_of}
use fusion_index.Handlers.Params.{Page, to_int32, row_limit, row_offset}
use fusion_index.Handlers.Params.Bounds.{to_int32-small}

-- What a client collects from a page, nothing where it is refused.
abbrev pub collected : {A : Type 0} → DbResult (List A) → List A
collected (ok rows) = rows
collected (err e) = []

-- The rows of `m` pages of a size, from page `k` on.
unfoldable pub walk : {A : Type 0} → ℕ → ℕ → ℕ → List A → List A
walk size k zero rows = []
walk size k (suc m) rows =
    let p : Page = record { page = k; page_size = size } in
    collected (page_of (row_limit p) (row_offset p) rows) ++ walk size (suc k) m rows

module _ {A : Type 0} where
  take_cong : (m n : ℕ) (xs : List A) → m ≡ n → take m xs ≡ take n xs
  take_cong m n xs e = ap (λ i. take i xs) e

  drop_cong : (m n : ℕ) (xs : List A) → m ≡ n → drop m xs ≡ drop n xs
  drop_cong m n xs e = ap (λ i. drop i xs) e

  take_nil : (n : ℕ) → take {A = A} n [] ≡ []
  take_nil zero = refl
  take_nil (suc n) = refl

  drop_nil : (n : ℕ) → drop {A = A} n [] ≡ []
  drop_nil zero = refl
  drop_nil (suc n) = refl

  take_add : (m n : ℕ) (xs : List A) → take m xs ++ take n (drop m xs) ≡ take (m + n) xs
  take_add zero n xs = take_cong n (0 + n) xs (omega arith)
  take_add (suc m) n [] = take_nil n ∙ sym (take_nil (suc m + n))
  take_add (suc m) n (x ∷ xs) =
      ap (λ ys. x ∷ ys) (take_add m n xs)
      ∙ take_cong (suc (m + n)) (suc m + n) (x ∷ xs) (omega arith)

  drop_add : (m n : ℕ) (xs : List A) → drop n (drop m xs) ≡ drop (m + n) xs
  drop_add zero n xs = drop_cong n (0 + n) xs (omega arith)
  drop_add (suc m) n [] = drop_nil n ∙ sym (drop_nil (suc m + n))
  drop_add (suc m) n (x ∷ xs) =
      drop_add m n xs ∙ drop_cong (suc (m + n)) (suc m + n) (x ∷ xs) (omega arith)

  take_all : (n : ℕ) (xs : List A) → length xs ≤ n → take n xs ≡ xs
  take_all zero [] h = refl
  take_all zero (x ∷ xs) h = absurd (omega (arith, h))
  take_all (suc n) [] h = refl
  take_all (suc n) (x ∷ xs) h = ap (λ ys. x ∷ ys) (take_all n xs (omega (arith, h)))

  pub page_ok :
      (size k : ℕ) (rows : List A)
      → size < 2 ^ 31
      → k * size < 2 ^ 31
      → page_of
          (row_limit (record { page = k; page_size = size }))
          (row_offset (record { page = k; page_size = size }))
          rows
        ≡ ok (take size (drop (k * size) rows))
  unfolding row_limit row_offset page_of
  page_ok size k rows h hk = rw (to_int32-small size h, offset) refl
    where
      offset : row_offset (record { page = k; page_size = size }) ≡ pos (k * size)
      offset = ap to_int32 (omega (arith, hk)) ∙ to_int32-small (k * size) hk

  pub page-rows :
      (size k : ℕ) (rows : List A)
      → size < 2 ^ 31
      → k * size < 2 ^ 31
      → collected (
          page_of
            (row_limit (record { page = k; page_size = size }))
            (row_offset (record { page = k; page_size = size }))
            rows)
        ≡ take size (drop (k * size) rows)
  page-rows size k rows h hk = ap collected (page_ok size k rows h hk)

  walk-take :
      (size k m : ℕ) (rows : List A)
      → size < 2 ^ 31
      → (k + m) * size < 2 ^ 31
      → walk size k m rows ≡ take (m * size) (drop (k * size) rows)
  unfolding walk
  walk-take size k zero rows h hk = take_cong 0 (0 * size) (drop (k * size) rows) (omega arith)
  walk-take size k (suc m) rows h hk =
      ap (λ ys. ys ++ walk size (suc k) m rows) (page-rows size k rows h (before k m hk))
      ∙ ap (λ ys. take size (drop (k * size) rows) ++ ys)
          (walk-take size (suc k) m rows h (after k m hk)
            ∙ ap (take (m * size)) (
                drop_cong (suc k * size) (k * size + size) rows (omega arith)
                ∙ sym (drop_add (k * size) size rows)))
      ∙ take_add size (m * size) (drop (k * size) rows)
      ∙ take_cong (size + m * size) (suc m * size) (drop (k * size) rows) (omega arith)
    where
      before : (k m : ℕ) → (k + suc m) * size < 2 ^ 31 → k * size < 2 ^ 31
      before k m hk = omega (arith, hk)

      after : (k m : ℕ) → (k + suc m) * size < 2 ^ 31 → (suc k + m) * size < 2 ^ 31
      after k m hk = omega (arith, hk)

-- The pages of a list, taken one after the other, give every row once and in order, as many pages
-- as it takes, where the number of rows that they hold is below 2^31.
pub walk_complete :
    {A : Type 0} (size m : ℕ) (rows : List A)
    → size < 2 ^ 31
    → m * size < 2 ^ 31
    → length rows ≤ m * size
    → walk size 0 m rows ≡ rows
walk_complete size m rows h hm fits =
    walk-take size 0 m rows h (omega (arith, hm))
    ∙ ap (take (m * size)) (drop_cong (0 * size) 0 rows (omega arith))
    ∙ take_all (m * size) rows fits
