-- ===== src/Handlers/Tags/Pages.antt =====
-- The pages of TagHandler.ListAll.
use fusion_index.Prelude.{ℕ, ◌*◌, ◌^◌, ◌≤◌, ◌<◌, ◌≡◌, refl, sym, Bool, List, [], map, Text, length}
use mathlib.Core.Path.{subst}
use fusion_index.Strconv.{pos}
use fusion_index.Db.TagList.{TagFilter, matched_tags, list_tags_filtered}
use fusion_index.Session.{World, run, next_fate, perform}
use fusion_index.Handlers.{Step, internal_error, ◌or◌, pure}
use fusion_index.Handlers.Windowed.Pages.{
  map_id, page_at, HasTotal, browse, IsPage, browse_all, window-IsPage,
}
use fusion_index.Handlers.Admin.{PageResponse}
use fusion_index.Handlers.Tags.Lists.{TagListItem, to_tag_item, list_matching_tags}

module _ (name_before : Text → Text → Bool) (p : TagFilter) (w : World) where
  -- The tags that match the filter, in order.
  abbrev pub all_tags : List TagListItem
  all_tags = map to_tag_item (matched_tags name_before p w.db)

  abbrev pub tags_on : ℕ → ℕ → Step (PageResponse TagListItem)
  tags_on size k = (list_matching_tags name_before (page_at size k) p w).0

  tags_on-IsPage :
      (size k : ℕ)
      → w.fates ≡ []
      → 1 ≤ size
      → size < 2 ^ 31
      → IsPage (λ i. i) (tags_on size) size all_tags k
  unfolding list_matching_tags list_tags_filtered run next_fate perform
  tags_on-IsPage size k calm positive small =
      subst
        (λ v.
          IsPage (λ i. i) (λ n. (list_matching_tags name_before (page_at size n) p v).0) size
            (map to_tag_item (matched_tags name_before p v.db)) k)
        (sym (λ i. record w { fates = calm i }))
        (window-IsPage (matched_tags name_before p w.db) to_tag_item (λ i. i)
          (λ rows total.
            pure (record { items = map to_tag_item rows; total = total; page = page_at size k }))
          (run (list_tags_filtered name_before p (pos 1) (pos 0)) or internal_error)
          (record w { fates = [] }) size k refl (λ xs n. (map_id (map to_tag_item xs), refl))
          positive small)

-- Where no call fails, every page of the list of tags, of at least one row, whose offset is below 2^31 is
-- answered and tells the number of the tags that match the filter, also a page past the last; and the pages,
-- as many as it takes, show each of them once and in order, where the number of rows that they have room for
-- is below 2^31.
pub list_matching_tags_complete :
    (name_before : Text → Text → Bool) (p : TagFilter) (size m : ℕ) (w : World)
    → w.fates ≡ []
    → 1 ≤ size
    → size < 2 ^ 31
    → m * size < 2 ^ 31
    → length (all_tags name_before p w) ≤ m * size
    → (browse (λ i. i) (tags_on name_before p w size) 0 m ≡ all_tags name_before p w)
      × ((k : ℕ)
          → k * size < 2 ^ 31
          → HasTotal
              (λ i. i)
              (length (all_tags name_before p w))
              (list_matching_tags name_before (page_at size k) p w).0)
list_matching_tags_complete name_before p size m w calm positive small room fits = (
  browse_all (λ i. i) (tags_on name_before p w size) size (all_tags name_before p w) m
      (λ k. tags_on-IsPage name_before p w size k calm positive small) small room fits,
  λ k. (tags_on-IsPage name_before p w size k calm positive small).1,
)
