-- ===== src/Metrics.antt =====
-- internal/api/handlers/metrics.go and internal/metrics/cache.go: the totals of the registry, kept
-- for a time. One refresh runs at a time, so a cache is passed from one request to the next.
pub mod Freshness
pub mod Sums
use fusion_index.Prelude.{
  ℕ, ◌-◌, Option, none, some, List, [], ◌∷◌, Text, Bool, ltb, find, if◌then◌else◌,
}
use fusion_index.Db.{FileStatus, pending, available, error}
use fusion_index.Db.Totals.{
  Group, is_status, count_registry_artifacts, count_registry_versions, count_registry_tags,
  count_registry_files_by_status, sum_registry_storage_bytes, count_artifacts_without_tags,
  count_artifacts_without_versions, count_artifacts_by_type,
  count_artifacts_with_versions_but_no_files, count_versions_without_any_files, count_broken_tags,
  count_unused_types, count_retention_policies, sum_storage_bytes_by_backend,
}
use fusion_index.Session.{World, run, begin}
use fusion_index.Handlers.{
  Step, next, failed, Handler, ◌>>=◌, ◌>>◌, pure, ◌or◌, internal_error, deferring_rollback,
}

pub record Snapshot : Type 0 where
  pub cached_at : ℕ
  pub total_artifacts : ℕ
  pub total_versions : ℕ
  pub total_tags : ℕ
  pub files_available : ℕ
  pub files_pending : ℕ
  pub files_error : ℕ
  pub total_storage_bytes : ℕ
  pub artifacts_without_tags : ℕ
  pub artifacts_without_versions : ℕ
  pub type_counts : List (Group Text)
  pub artifacts_without_files : ℕ
  pub versions_without_files : ℕ
  pub broken_tags : ℕ
  pub unused_types : ℕ
  pub retention_policies : ℕ
  pub storage_bytes_by_backend : List (Group Text)

unfoldable pub total_of : Option (Group FileStatus) → ℕ
total_of none = 0
total_of (some g) = g.total

-- The switch over the rows: a status without a row counts 0.
unfoldable pub count_at : FileStatus → List (Group FileStatus) → ℕ
unfolding total_of is_status
count_at status rows = total_of (find (λ g. is_status g.key status) rows)

-- time.Now()
abbrev now_of : Handler ℕ
now_of w = (next w.now, w)

module _ (name_before : Text → Text → Bool) where
  -- The statements of the transaction, which reads only.
  unfoldable pub read_totals : Handler Snapshot
  unfolding count_at
  read_totals = do
    total_artifacts ← run count_registry_artifacts or internal_error
    total_versions ← run count_registry_versions or internal_error
    total_tags ← run count_registry_tags or internal_error
    file_rows ← run count_registry_files_by_status or internal_error
    total_storage ← run sum_registry_storage_bytes or internal_error
    without_tags ← run count_artifacts_without_tags or internal_error
    without_versions ← run count_artifacts_without_versions or internal_error
    type_rows ← run (count_artifacts_by_type name_before) or internal_error
    without_files ← run count_artifacts_with_versions_but_no_files or internal_error
    versions_without_files ← run count_versions_without_any_files or internal_error
    broken_tags ← run count_broken_tags or internal_error
    unused_types ← run count_unused_types or internal_error
    retention_policies ← run count_retention_policies or internal_error
    backend_rows ← run (sum_storage_bytes_by_backend name_before) or internal_error
    now ← now_of
    pure (record {
      cached_at = now;
      total_artifacts = total_artifacts;
      total_versions = total_versions;
      total_tags = total_tags;
      files_available = count_at available file_rows;
      files_pending = count_at pending file_rows;
      files_error = count_at error file_rows;
      total_storage_bytes = total_storage;
      artifacts_without_tags = without_tags;
      artifacts_without_versions = without_versions;
      type_counts = type_rows;
      artifacts_without_files = without_files;
      versions_without_files = versions_without_files;
      broken_tags = broken_tags;
      unused_types = unused_types;
      retention_policies = retention_policies;
      storage_bytes_by_backend = backend_rows;
    })

  -- load
  unfoldable pub load_totals : Handler Snapshot
  unfolding read_totals
  load_totals = do begin or internal_error; deferring_rollback read_totals

-- The snapshot of a cache, if it is younger than the time to live.
unfoldable pub fresh : ℕ → ℕ → Option Snapshot → Option Snapshot
fresh ttl now none = none
fresh ttl now (some s) = if ltb (now - s.cached_at) ttl then some s else none

-- What a refresh leaves: a failed one leaves the cache as it was.
unfoldable pub refreshed :
    Option Snapshot → Step Snapshot × World → Step Snapshot × World × Option Snapshot
refreshed cache (next s, w) = (next s, w, some s)
refreshed cache (failed code, w) = (failed code, w, cache)

unfoldable pub get_or_load :
    Handler Snapshot
    → Option Snapshot
    → Option Snapshot
    → World
    → Step Snapshot × World × Option Snapshot
unfolding refreshed
get_or_load load cache (some s) w = (next s, w, cache)
get_or_load load cache none w = refreshed cache (load w)

-- Cache.Get, which the handler answers with
unfoldable pub get_metrics :
    Handler Snapshot → ℕ → Option Snapshot → World → Step Snapshot × World × Option Snapshot
unfolding get_or_load fresh
get_metrics load ttl cache w = get_or_load load cache (fresh ttl w.now cache) w
