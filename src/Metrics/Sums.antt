-- ===== src/Metrics/Sums.antt =====
-- The groups of internal/db/sqlc/registry_metrics.sql.go add up to the totals beside them.
use fusion_index.Prelude.{
  ℕ, ◌+◌, ◌≡◌, refl, sym, ap, ◌∙◌, Bool, true, false, Option, List, [], ◌∷◌, Text, arith, length,
  keep_if, find, text_eq, if◌then◌else◌,
}
use fusion_index.Db.{FileStatus, pending, available, error, File}
use fusion_index.Db.Filtered.{size_of}
use fusion_index.Db.Pages.{insert_by, order_by}
use fusion_index.Db.Totals.{
  Group, is_status, add_to, group_by, sum_of, count_registry_artifacts, count_registry_versions,
  count_registry_tags, count_registry_files_by_status, sum_registry_storage_bytes,
  count_artifacts_without_tags, count_artifacts_without_versions, count_artifacts_by_type,
  count_artifacts_with_versions_but_no_files, count_versions_without_any_files, count_broken_tags,
  count_unused_types, count_retention_policies, sum_storage_bytes_by_backend,
}
use mathlib.Core.Path.{subst}
use fusion_index.Session.{World, run, begin, begin_fate, next_fate, perform}
use fusion_index.Handlers.{next}
use fusion_index.Metrics.{Snapshot, total_of, count_at, read_totals, load_totals}

abbrev pub total_over : {K : Type 0} → List (Group K) → ℕ
total_over gs = sum_of (λ g. g.total) gs

module _ {K : Type 0} (same : K → K → Bool) where
  total-add_to :
      (key : K) (n : ℕ) (gs : List (Group K))
      → total_over (add_to same key n gs) ≡ n + total_over gs
  unfolding add_to sum_of
  total-add_to key n [] = refl
  total-add_to key n (g ∷ gs) = ground (arith, total-add_to key n gs)

  total-group_by :
      {A : Type 0} (key : A → K) (amount : A → ℕ) (xs : List A)
      → total_over (group_by same key amount xs) ≡ sum_of amount xs
  unfolding group_by sum_of
  total-group_by key amount [] = refl
  total-group_by key amount (x ∷ xs) =
      total-add_to (key x) (amount x) (group_by same key amount xs)
      ∙ ap (λ n. amount x + n) (total-group_by key amount xs)

module _ {A : Type 0} (amount : A → ℕ) (before : A → A → Bool) where
  sum-insert_by :
      (x : A) (xs : List A) → sum_of amount (insert_by before x xs) ≡ amount x + sum_of amount xs
  unfolding insert_by sum_of
  sum-insert_by x [] = refl
  sum-insert_by x (y ∷ ys) = ground (arith, sum-insert_by x ys)

  sum-order_by : (xs : List A) → sum_of amount (order_by before xs) ≡ sum_of amount xs
  unfolding order_by sum_of
  sum-order_by [] = refl
  sum-order_by (x ∷ xs) =
      sum-insert_by x (order_by before xs) ∙ ap (λ n. amount x + n) (sum-order_by xs)

size_of-other : (st : FileStatus) (o : Option ℕ) → is_status available st ≡ false → size_of st o ≡ 0
unfolding is_status size_of
size_of-other pending o h = refl
size_of-other available o h = cc
size_of-other error o h = refl

available-only :
    (fs : List File)
    → sum_of (λ f. size_of f.status f.size_bytes) (keep_if (λ f. is_status available f.status) fs)
      ≡ sum_of (λ f. size_of f.status f.size_bytes) fs
unfolding sum_of keep_if
available-only [] = refl
available-only (f ∷ fs) = ground (arith, available-only fs, size_of-other f.status f.size_bytes)

is_status_trans : (a b c : FileStatus) → is_status a b ≡ true → is_status a c ≡ is_status b c
unfolding is_status
is_status_trans pending pending c h = refl
is_status_trans available available c h = refl
is_status_trans error error c h = refl
is_status_trans pending available c h = cc
is_status_trans pending error c h = cc
is_status_trans available pending c h = cc
is_status_trans available error c h = cc
is_status_trans error pending c h = cc
is_status_trans error available c h = cc

count_at-add_to :
    (st key : FileStatus) (n : ℕ) (gs : List (Group FileStatus))
    → count_at st (add_to is_status key n gs) ≡ (if is_status key st then n else 0) + count_at st gs
unfolding count_at total_of add_to find
count_at-add_to st key n [] = ground arith
count_at-add_to st key n (g ∷ gs) =
    ground (arith, count_at-add_to st key n gs, is_status_trans g.key key st)

one_status :
    (st : FileStatus)
    → (if is_status st available then 1 else 0)
        + (if is_status st pending then 1 else 0)
        + (if is_status st error then 1 else 0)
      ≡ 1
unfolding is_status
one_status pending = refl
one_status available = refl
one_status error = refl

counts-nil : count_at available [] + count_at pending [] + count_at error [] ≡ 0
unfolding count_at find
counts-nil = refl

-- The three counts of files add up to the number of files.
counts-length :
    (fs : List File)
    → (let rows = group_by is_status (λ f. f.status) (λ f. 1) fs in
        count_at available rows + count_at pending rows + count_at error rows)
      ≡ length fs
unfolding group_by
counts-length [] = counts-nil
counts-length (f ∷ fs) =
    let rows = group_by is_status (λ f. f.status) (λ f. 1) fs in
    omega (
      arith,
      counts-length fs,
      one_status f.status,
      count_at-add_to available f.status 1 rows,
      count_at-add_to pending f.status 1 rows,
      count_at-add_to error f.status 1 rows,
    )

-- The totals are read, and add up.
abbrev pub Adds : (Text → Text → Bool) → World → Type 0
Adds name_before w =
    (s : Snapshot) × ((load_totals name_before w).0 ≡ next s)
    × (s.files_available + s.files_pending + s.files_error ≡ length w.db.files)
    × (total_over s.storage_bytes_by_backend ≡ s.total_storage_bytes)

calm-Adds :
    (name_before : Text → Text → Bool) (w : World) → Adds name_before (record w { fates = [] })
unfolding load_totals read_totals run begin begin_fate next_fate perform count_registry_artifacts
    count_registry_versions count_registry_tags count_registry_files_by_status
    sum_registry_storage_bytes count_artifacts_without_tags count_artifacts_without_versions
    count_artifacts_by_type count_artifacts_with_versions_but_no_files
    count_versions_without_any_files count_broken_tags count_unused_types count_retention_policies
    sum_storage_bytes_by_backend
calm-Adds name_before w = (
  _,
  refl,
  counts-length w.db.files,
  sum-order_by (λ g. g.total) (λ g h. name_before g.key h.key) _
      ∙ total-group_by text_eq (λ f. f.storage_backend) (λ f. size_of f.status f.size_bytes) _
      ∙ available-only w.db.files,
)

-- Where no call fails, the totals are read, the counts of available, pending and failed files add up
-- to the number of files, and the bytes of the backends to the total of bytes.
pub load_totals-Adds :
    (name_before : Text → Text → Bool) (w : World) → w.fates ≡ [] → Adds name_before w
load_totals-Adds name_before w calm =
    subst (Adds name_before) (sym (λ i. record w { fates = calm i })) (calm-Adds name_before w)
