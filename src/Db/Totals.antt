-- ===== src/Db/Totals.antt =====
-- internal/db/sqlc/registry_metrics.sql.go and CountRegistryArtifacts: totals over the tables. Names
-- are ordered by the collation of the database, the parameter `name_before`.
use fusion_index.Prelude.{
  ℕ, ◌+◌, Bool, true, false, not, List, [], ◌∷◌, map, length, Text, keep_if, exists, text_eq, ◌==◌,
  ◌&&◌, if◌then◌else◌,
}
use fusion_index.Db.{FileStatus, pending, available, error, Tag, Db, ok, Statement}
use fusion_index.Db.Filtered.{size_of}
use fusion_index.Db.Types.{is_unused}
use fusion_index.Db.Pages.{order_by}
use fusion_index.Db.Cleanup.{has_versions, version_has_files, has_files}

unfoldable pub count_registry_artifacts : Statement ℕ
count_registry_artifacts now db = (ok (length db.artifacts), db)

unfoldable pub count_registry_versions : Statement ℕ
count_registry_versions now db = (ok (length db.versions), db)

unfoldable pub count_registry_tags : Statement ℕ
count_registry_tags now db = (ok (length db.tags), db)

unfoldable pub count_retention_policies : Statement ℕ
count_retention_policies now db = (ok (length db.policies), db)

unfoldable pub count_artifacts_without_tags : Statement ℕ
count_artifacts_without_tags now db = (
  ok (length (keep_if (λ a. not (exists (λ t. t.artifact_id == a.id) db.tags)) db.artifacts)),
  db,
)

unfoldable pub count_artifacts_without_versions : Statement ℕ
unfolding has_versions
count_artifacts_without_versions now db =
    (ok (length (keep_if (λ a. not (has_versions db a.id)) db.artifacts)), db)

-- CountArtifactsWithVersionsButNoFiles; the column version_count is the number of versions.
unfoldable pub count_artifacts_with_versions_but_no_files : Statement ℕ
unfolding has_versions has_files
count_artifacts_with_versions_but_no_files now db =
    (ok (length (keep_if (λ a. has_versions db a.id && not (has_files db a.id)) db.artifacts)), db)

unfoldable pub count_versions_without_any_files : Statement ℕ
unfolding version_has_files
count_versions_without_any_files now db =
    (ok (length (keep_if (λ v. not (version_has_files db v.id)) db.versions)), db)

unfoldable pub is_status : FileStatus → FileStatus → Bool
is_status pending pending = true
is_status available available = true
is_status error error = true
is_status _ _ = false

-- A tag whose version has no AVAILABLE file.
unfoldable pub is_broken : Db → Tag → Bool
unfolding is_status
is_broken db t =
    not (exists (λ f. f.version_id == t.version_id && is_status available f.status) db.files)

unfoldable pub count_broken_tags : Statement ℕ
unfolding is_broken
count_broken_tags now db = (ok (length (keep_if (is_broken db) db.tags)), db)

unfoldable pub count_unused_types : Statement ℕ
unfolding is_unused
count_unused_types now db = (ok (length (keep_if (is_unused db) db.types)), db)

-- GROUP BY: the sum of the numbers of each key.
pub record Group (K : Type 0) : Type 0 where
  pub key : K
  pub total : ℕ

unfoldable pub add_to : {K : Type 0} → (K → K → Bool) → K → ℕ → List (Group K) → List (Group K)
add_to same key n [] = record { key = key; total = n } ∷ []
add_to same key n (g ∷ gs) =
    let rest = add_to same key n gs in
    if same g.key key then record g { total = n + g.total } ∷ gs else g ∷ rest

unfoldable pub group_by :
    {A K : Type 0} → (K → K → Bool) → (A → K) → (A → ℕ) → List A → List (Group K)
unfolding add_to
group_by same key amount [] = []
group_by same key amount (x ∷ xs) = add_to same (key x) (amount x) (group_by same key amount xs)

-- CountRegistryFilesByStatus
unfoldable pub count_registry_files_by_status : Statement (List (Group FileStatus))
unfolding group_by is_status
count_registry_files_by_status now db =
    (ok (group_by is_status (λ f. f.status) (λ f. 1) db.files), db)

unfoldable pub sum_of : {A : Type 0} → (A → ℕ) → List A → ℕ
sum_of amount [] = 0
sum_of amount (x ∷ xs) = amount x + sum_of amount xs

-- SumRegistryStorageBytes, a NULL size counting nothing
unfoldable pub sum_registry_storage_bytes : Statement ℕ
unfolding sum_of size_of
sum_registry_storage_bytes now db = (ok (sum_of (λ f. size_of f.status f.size_bytes) db.files), db)

-- SumStorageBytesByBackend
unfoldable pub sum_storage_bytes_by_backend : (Text → Text → Bool) → Statement (List (Group Text))
unfolding group_by size_of is_status
sum_storage_bytes_by_backend name_before now db = (
  ok (
      order_by (λ g h. name_before g.key h.key)
        (group_by text_eq (λ f. f.storage_backend) (λ f. size_of f.status f.size_bytes)
          (keep_if (λ f. is_status available f.status) db.files))),
  db,
)

-- CountArtifactsByType: every type, with the number of its assignments
unfoldable pub count_artifacts_by_type : (Text → Text → Bool) → Statement (List (Group Text))
count_artifacts_by_type name_before now db = (
  ok (
      order_by (λ g h. name_before g.key h.key)
        (map
          (λ t. record {
            key = t.name;
            total = length (keep_if (λ m. m.type_id == t.id) db.type_maps);
          })
          db.types)),
  db,
)
