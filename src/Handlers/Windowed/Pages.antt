-- ===== src/Handlers/Windowed/Pages.antt =====
-- The pages of a list whose total rides on its rows.
use fusion_index.Prelude.{
  ℕ, zero, suc, ◌*◌, ◌^◌, ◌≤◌, ◌<◌, ◌≡◌, refl, sym, ap, ◌∙◌, some, List, [], ◌∷◌, ◌++◌, map, arith,
  length, take, drop, All,
}
use mathlib.Core.Path.{subst}
use fusion_index.Strconv.{ℤ, pos, negsuc}
use fusion_index.Db.{DbResult, ok, err}
use fusion_index.Db.Pages.{page_of}
use fusion_index.Db.Windowed.{Counted, counted_rows, limited}
use fusion_index.Session.{World}
use fusion_index.Handlers.{Step, next, failed, Handler, continue, step_of, internal_error}
use fusion_index.Handlers.Params.{Page, row_limit, row_offset}
use fusion_index.Handlers.Params.Walk.{collected, walk, page_ok, page-rows, walk_complete}
use fusion_index.Handlers.Windowed.{first_total, total_of_page, plain_rows}
use fusion_index.Handlers.Admin.{PageResponse}

pub map_id : {A : Type 0} (xs : List A) → map (λ x. x) xs ≡ xs
map_id [] = refl
map_id (x ∷ xs) = ap (λ ys. x ∷ ys) (map_id xs)

module _ {A : Type 0} {B : Type 0} (f : A → B) where
  length-map : (xs : List A) → length (map f xs) ≡ length xs
  length-map [] = refl
  length-map (x ∷ xs) = ap suc (length-map xs)

  map-take : (n : ℕ) (xs : List A) → map f (take n xs) ≡ take n (map f xs)
  map-take zero xs = refl
  map-take (suc n) [] = refl
  map-take (suc n) (x ∷ xs) = ap (λ ys. f x ∷ ys) (map-take n xs)

  map-drop : (n : ℕ) (xs : List A) → map f (drop n xs) ≡ drop n (map f xs)
  map-drop zero xs = refl
  map-drop (suc n) [] = refl
  map-drop (suc n) (x ∷ xs) = map-drop n xs

  pub map-page_of :
      (limit offset : ℤ) (xs : List A)
      → map f (collected (page_of limit offset xs)) ≡ collected (page_of limit offset (map f xs))
  unfolding page_of
  map-page_of (negsuc n) offset xs = refl
  map-page_of (pos n) (negsuc m) xs = refl
  map-page_of (pos n) (pos m) xs = map-take n (drop m xs) ∙ ap (take n) (map-drop m xs)

module _ {A : Type 0} (P : A → Type 0) where
  All-take : (n : ℕ) (xs : List A) → All P xs → All P (take n xs)
  All-take zero xs h = tt
  All-take (suc n) [] h = tt
  All-take (suc n) (x ∷ xs) (p, h) = (p, All-take n xs h)

  All-drop : (n : ℕ) (xs : List A) → All P xs → All P (drop n xs)
  All-drop zero xs h = h
  All-drop (suc n) [] h = tt
  All-drop (suc n) (x ∷ xs) (p, h) = All-drop n xs h

  All-page_of :
      (limit offset : ℤ) (xs : List A) → All P xs → All P (collected (page_of limit offset xs))
  unfolding page_of
  All-page_of (negsuc n) offset xs h = tt
  All-page_of (pos n) (negsuc m) xs h = tt
  All-page_of (pos n) (pos m) xs h = All-take n (drop m xs) (All-drop m xs h)

module _ {A : Type 0} (rows : List A) where
  -- Every row tells the number of all.
  abbrev Tells : Counted A → Type 0
  Tells r = r.total_count ≡ length rows

  counted-Tells : All Tells (counted_rows rows)
  unfolding counted_rows
  counted-Tells = go rows
    where
      go : (xs : List A) → All Tells (map (λ a. record { row = a; total_count = length rows }) xs)
      go [] = tt
      go (x ∷ xs) = (refl, go xs)

  plain-counted : plain_rows (counted_rows rows) ≡ rows
  unfolding plain_rows counted_rows
  plain-counted = go rows
    where
      go :
          (xs : List A)
          → map
              (λ (r : Counted A). r.row)
              (map (λ a. record { row = a; total_count = length rows }) xs)
            ≡ xs
      go [] = refl
      go (x ∷ xs) = ap (λ ys. x ∷ ys) (go xs)

  -- A window shows the rows of its page.
  pub window-rows :
      (limit offset : ℤ)
      → plain_rows (collected (limited (some limit) offset (counted_rows rows)))
        ≡ collected (page_of limit offset rows)
  unfolding plain_rows limited
  window-rows limit offset =
      map-page_of (λ (r : Counted A). r.row) limit offset (counted_rows rows)
      ∙ ap (λ xs. collected (page_of limit offset xs)) (unfold plain_rows in plain-counted)

  pub first_of_counted :
      first_total (collected (limited (some (pos 1)) (pos 0) (counted_rows rows))) ≡ length rows
  unfolding first_total limited page_of counted_rows
  first_of_counted = go rows refl
    where
      go :
          (xs : List A)
          → xs ≡ rows
          → first_total (take 1 (map (λ a. record { row = a; total_count = length rows }) xs))
            ≡ length rows
      go [] e = ap length e
      go (x ∷ xs) e = refl

  -- Where the query of page 0 is answered, the total is the number of all rows, on every page.
  pub total_of_page-length :
      (k : ℕ) (limit offset : ℤ) (w : World) (first : Handler (List (Counted A)))
      → (k ≡ 0 → collected (page_of limit offset rows) ≡ [] → rows ≡ [])
      → first w ≡ (step_of internal_error (limited (some (pos 1)) (pos 0) (counted_rows rows)), w)
      → total_of_page k (collected (limited (some limit) offset (counted_rows rows))) first w
        ≡ (next (length rows), w)
  unfolding total_of_page limited page_of plain_rows
  total_of_page-length k limit offset w first start answered =
      go k (collected (limited (some limit) offset (counted_rows rows)))
        (All-page_of Tells limit offset (counted_rows rows) counted-Tells)
        (λ e empty. start e (sym (window-rows limit offset) ∙ ap plain_rows empty))
    where
      go :
          (n : ℕ) (page : List (Counted A))
          → All Tells page
          → (n ≡ 0 → page ≡ [] → rows ≡ [])
          → total_of_page n page first w ≡ (next (length rows), w)
      go n (r ∷ page) (h, hs) none_there = ap (λ m. (next m, w)) h
      go zero [] h none_there = ap (λ xs. (next (length xs), w)) (sym (none_there refl refl))
      go (suc n) [] h none_there = rw answered (ap (λ m. (next m, w)) first_of_counted)

abbrev pub page_at : ℕ → ℕ → Page
page_at size k = record { page = k; page_size = size }

module _ {B C : Type 0} (item : B → C) where
  -- What an answer shows.
  abbrev pub shown : Step (PageResponse B) → List C
  shown (next r) = map item r.items
  shown (failed code) = []

  -- The answer is a page with this total.
  abbrev pub HasTotal : ℕ → Step (PageResponse B) → Type 0
  HasTotal n (next r) = r.total ≡ n
  HasTotal n (failed code) = ⊥

  -- What `m` answers show, from page `k` on.
  unfoldable pub browse : (ℕ → Step (PageResponse B)) → ℕ → ℕ → List C
  browse answer k zero = []
  browse answer k (suc m) = shown (answer k) ++ browse answer (suc k) m

  module _ (answer : ℕ → Step (PageResponse B)) (size : ℕ) (rows : List C) where
    -- An answer shows its page of the rows, and it is one with the number of all, where the offset is an int32.
    abbrev pub IsPage : ℕ → Type 0
    IsPage k =
        (shown (answer k)
          ≡ collected (page_of (row_limit (page_at size k)) (row_offset (page_at size k)) rows))
        × (k * size < 2 ^ 31 → HasTotal (length rows) (answer k))

    browse-walk : (k m : ℕ) → ((k : ℕ) → IsPage k) → browse answer k m ≡ walk size k m rows
    unfolding browse walk
    browse-walk k zero h = refl
    browse-walk k (suc m) h =
        ap (λ xs. xs ++ browse answer (suc k) m) (h k).0
        ∙ ap
            (λ xs.
              collected (page_of (row_limit (page_at size k)) (row_offset (page_at size k)) rows)
              ++ xs)
            (browse-walk (suc k) m h)

    pub browse_all :
        (m : ℕ)
        → ((k : ℕ) → IsPage k)
        → size < 2 ^ 31
        → m * size < 2 ^ 31
        → length rows ≤ m * size
        → browse answer 0 m ≡ rows
    browse_all m h small room fits = browse-walk 0 m h ∙ walk_complete size m rows small room fits

-- The first page of a size of at least one is empty only where there is no row.
pub first_page_empty :
    {A : Type 0} (size k : ℕ) (rows : List A)
    → 1 ≤ size
    → size < 2 ^ 31
    → k ≡ 0
    → collected (page_of (row_limit (page_at size k)) (row_offset (page_at size k)) rows) ≡ []
    → rows ≡ []
first_page_empty {A = A} size k rows positive small e empty =
    let start : k * size ≡ 0 = rw e (omega arith) in
    go size rows positive (
      sym
        (page-rows size k rows small (rw e (omega arith)) ∙ ap (λ n. take size (drop n rows)) start)
      ∙ empty)
  where
    go : (n : ℕ) (xs : List A) → 1 ≤ n → take n xs ≡ [] → xs ≡ []
    go zero xs h t = absurd (omega (arith, h))
    go (suc n) [] h t = refl
    go (suc n) (x ∷ xs) h t = cc t

module _ {A B C : Type 0} (rows : List A) (g : A → C) (item : B → C)
    (finish : List A → ℕ → Handler (PageResponse B)) (first : Handler (List (Counted A)))
    (w : World) (size k : ℕ) where
  -- The part of a list after its rows are read.
  abbrev pub after_rows : DbResult (List (Counted A)) → Step (PageResponse B) × World
  after_rows r =
      continue (step_of internal_error r, w)
        (λ rs v. continue (total_of_page k rs first v) (λ total. finish (plain_rows rs) total))

  abbrev rows_at : List A
  rows_at = collected (page_of (row_limit (page_at size k)) (row_offset (page_at size k)) rows)

  abbrev window : DbResult (List (Counted A))
  window =
      limited (some (row_limit (page_at size k))) (row_offset (page_at size k)) (counted_rows rows)

  -- Where the query of page 0 is answered and the rest shows the rows with the total that it is given,
  -- the whole shows its page and the number of all.
  pub window-IsPage :
      first w ≡ (step_of internal_error (limited (some (pos 1)) (pos 0) (counted_rows rows)), w)
      → ((xs : List A) (n : ℕ)
          → (shown item (finish xs n w).0 ≡ map g xs) × HasTotal item n (finish xs n w).0)
      → 1 ≤ size
      → size < 2 ^ 31
      → (shown item (after_rows window).0
          ≡ collected
              (page_of (row_limit (page_at size k)) (row_offset (page_at size k)) (map g rows)))
        × (k * size < 2 ^ 31 → HasTotal item (length (map g rows)) (after_rows window).0)
  unfolding plain_rows
  window-IsPage answered finished positive small = go window refl
    where
      ok-ne-err : (rs : List (Counted A)) (x : _) → ok rs ≡ err x → ⊥
      ok-ne-err rs x h = cc h

      window_ok : k * size < 2 ^ 31 → window ≡ ok (take size (drop (k * size) (counted_rows rows)))
      window_ok near = unfold limited in page_ok size k (counted_rows rows) small near

      shows_rows :
          (r : DbResult (List (Counted A))) → window ≡ r → plain_rows (collected r) ≡ rows_at
      shows_rows r e = ap (λ x. plain_rows (collected x)) (sym e) ∙ window-rows rows _ _

      go :
          (r : DbResult (List (Counted A)))
          → window ≡ r
          → (shown item (after_rows r).0
              ≡ collected
                  (page_of (row_limit (page_at size k)) (row_offset (page_at size k)) (map g rows)))
            × (k * size < 2 ^ 31 → HasTotal item (length (map g rows)) (after_rows r).0)
      go (err x) e = (
        ap (map g) (shows_rows (err x) e) ∙ map-page_of g _ _ rows,
        λ near. absurd (ok-ne-err _ x (sym (window_ok near) ∙ e)),
      )
      go (ok rs) e =
          let total : total_of_page k rs first w ≡ (next (length rows), w) =
            ap (λ x. total_of_page k (collected x) first w) (sym e)
            ∙ total_of_page-length rows k _ _ w first (first_page_empty size k rows positive small)
                answered in
          let (show, tells) = finished (plain_rows rs) (length rows) in
          rw total (
            show ∙ ap (map g) (shows_rows (ok rs) e) ∙ map-page_of g _ _ rows,
            λ near.
                subst (λ n. HasTotal item n (finish (plain_rows rs) (length rows) w).0)
                  (sym (length-map g rows)) tells,
          )
