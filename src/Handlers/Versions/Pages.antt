-- ===== src/Handlers/Versions/Pages.antt =====
-- The pages of VersionHandler.ListAll.
use fusion_index.Prelude.{
  ℕ, ◌*◌, ◌^◌, ◌≤◌, ◌<◌, ◌≡◌, refl, sym, ap, Bool, false, Option, none, some, List, [], ◌∷◌, map,
  Text, length,
}
use mathlib.Core.Path.{subst, fun_ext}
use fusion_index.Strconv.{ℤ, pos}
use fusion_index.Db.{Version, Tag}
use fusion_index.Db.Windowed.{Counted}
use fusion_index.Db.Filtered.{VersionFilter, FilteredRow, matched_rows, list_versions_window}
use fusion_index.Session.{World, run, next_fate, perform}
use fusion_index.Handlers.{Step, next, Handler, continue, internal_error, ◌or◌, pure}
use fusion_index.Handlers.Params.{Page, row_limit, row_offset, parse_optional_bool}
use fusion_index.Handlers.Windowed.{total_of_page, plain_rows}
use fusion_index.Handlers.Windowed.Pages.{
  window-IsPage, page_at, shown, HasTotal, browse, IsPage, browse_all,
}
use fusion_index.Handlers.Bulk.{parse_version_filter}
use fusion_index.Handlers.Admin.{PageResponse, tags_by_version_ids}
use fusion_index.Handlers.Versions.Lists.{
  VersionQuery, is_set, with_tags, query_versions, list_all_versions,
}

abbrev pub version_of : Version × List Tag → Version
version_of i = i.0

with_tags-version :
    (tags : List Tag) (rows : List FilteredRow)
    → map version_of (map (with_tags tags) rows) ≡ map (λ r. r.version) rows
unfolding with_tags
with_tags-version tags [] = refl
with_tags-version tags (r ∷ rows) = ap (λ vs. r.version ∷ vs) (with_tags-version tags rows)

module _ (parse_time : Text → Option ℕ) (tag : Text) (name_before : Text → Text → Bool)
    (q : VersionQuery) (w : World) where
  abbrev pub versions_on : ℕ → ℕ → Step (PageResponse (Version × List Tag))
  versions_on size k = (list_all_versions parse_time tag name_before (page_at size k) q w).0

  -- The versions that match the filters and, where it is set, are deletable, in order.
  abbrev pub all_versions : VersionFilter → Bool → List Version
  all_versions params deletable = map (λ r. r.version) (matched_rows none params tag deletable w.db)

  abbrev finish : Page → List FilteredRow → ℕ → Handler (PageResponse (Version × List Tag))
  finish page rows total v =
      continue
        (let (tags, v') = tags_by_version_ids name_before (map (λ r. r.version.id) rows) v in
          (next tags, v'))
        (λ tags. pure (record { items = map (with_tags tags) rows; total = total; page = page }))

  finish-shown :
      (page : Page) (rows : List FilteredRow) (total : ℕ) (v : World)
      → (shown version_of (finish page rows total v).0 ≡ map (λ r. r.version) rows)
        × HasTotal version_of total (finish page rows total v).0
  finish-shown page rows total v = (
    with_tags-version (tags_by_version_ids name_before (map (λ r. r.version.id) rows) v).0 rows,
    refl,
  )

  abbrev Query : Type 0
  Query = Handler (List (Counted FilteredRow))

  -- The list over the two queries that it makes.
  abbrev paged : ℕ → ℕ → Query → Query → World → Step (PageResponse (Version × List Tag))
  paged size k rows first v =
      (continue (rows v) (λ rs u.
        continue (total_of_page k rs first u)
          (λ total. finish (page_at size k) (plain_rows rs) total))).0

  module _ (params : VersionFilter) (deletable : Option Bool)
      (parsed : parse_version_filter parse_time false q.filters ≡ some params)
      (set : parse_optional_bool q.deletable ≡ some deletable) where
    abbrev window : ℤ → ℤ → Query
    window limit offset =
        run (list_versions_window none params tag (is_set deletable) (some limit) offset)
        or internal_error

    query-window :
        (limit offset : ℤ)
        → query_versions parse_time tag none (some limit) offset q ≡ window limit offset
    unfolding query_versions
    query-window limit offset = fun_ext λ v. rw (parsed, set) refl

    paged-IsPage :
        (size k : ℕ)
        → 1 ≤ size
        → size < 2 ^ 31
        → IsPage version_of
            (λ n.
              paged size n
                (window (row_limit (page_at size n)) (row_offset (page_at size n)))
                (window (pos 1) (pos 0))
                (record w { fates = [] }))
            size
            (all_versions params (is_set deletable))
            k
    unfolding list_versions_window run next_fate perform
    paged-IsPage size k positive small =
        window-IsPage (matched_rows none params tag (is_set deletable) w.db) (λ r. r.version)
          version_of (finish (page_at size k)) (window (pos 1) (pos 0)) (record w { fates = [] })
          size k refl (λ xs n. finish-shown (page_at size k) xs n (record w { fates = [] }))
          positive small

    pub versions_on-IsPage :
        (size k : ℕ)
        → w.fates ≡ []
        → 1 ≤ size
        → size < 2 ^ 31
        → IsPage version_of (versions_on size) size (all_versions params (is_set deletable)) k
    unfolding list_all_versions
    versions_on-IsPage size k calm positive small =
        subst
          (λ (answer : ℕ → Step (PageResponse (Version × List Tag))).
            IsPage version_of answer size (all_versions params (is_set deletable)) k)
          (λ i n.
            paged size n
              (sym (query-window (row_limit (page_at size n)) (row_offset (page_at size n))) i)
              (sym (query-window (pos 1) (pos 0)) i) (record w { fates = sym calm i }))
          (paged-IsPage size k positive small)

-- Where the parameters are read and no call fails, every page of the list of all versions, of at least one
-- row, whose offset is below 2^31 is answered and tells the number of the versions that match the filters,
-- also a page past the last; and the pages, as many as it takes, show each of them once and in order, where
-- the number of rows that they have room for is below 2^31.
pub list_all_versions_complete :
    (parse_time : Text → Option ℕ) (tag : Text) (name_before : Text → Text → Bool)
    (q : VersionQuery) (params : VersionFilter) (deletable : Option Bool) (size m : ℕ) (w : World)
    → parse_version_filter parse_time false q.filters ≡ some params
    → parse_optional_bool q.deletable ≡ some deletable
    → w.fates ≡ []
    → 1 ≤ size
    → size < 2 ^ 31
    → m * size < 2 ^ 31
    → length (all_versions parse_time tag name_before q w params (is_set deletable)) ≤ m * size
    → (browse version_of (versions_on parse_time tag name_before q w size) 0 m
        ≡ all_versions parse_time tag name_before q w params (is_set deletable))
      × ((k : ℕ)
          → k * size < 2 ^ 31
          → HasTotal version_of
              (length (all_versions parse_time tag name_before q w params (is_set deletable)))
              (list_all_versions parse_time tag name_before (page_at size k) q w).0)
list_all_versions_complete parse_time tag name_before q params deletable size m w parsed set calm
      positive small room fits =
    let pages : (k : ℕ)
        → IsPage version_of (versions_on parse_time tag name_before q w size) size
            (all_versions parse_time tag name_before q w params (is_set deletable)) k =
      λ k.
        versions_on-IsPage parse_time tag name_before q w params deletable parsed set size k calm
          positive small in
    (
      browse_all version_of (versions_on parse_time tag name_before q w size) size
          (all_versions parse_time tag name_before q w params (is_set deletable)) m pages small room
          fits,
      λ k. (pages k).1,
    )
