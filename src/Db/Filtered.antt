-- ===== src/Db/Filtered.antt =====
-- ListVersionsFiltered of internal/db/sqlc/registry_versions.sql.go: the one query that the version
-- lists and the bulk deletes share.
use fusion_index.Prelude.{
  ℕ, suc, ◌+◌, Bool, true, false, ◌&&◌, ◌||◌, not, Option, none, some, List, [], ◌∷◌, map, Text,
  keep_if, exists, text_eq, ltb, leb, ◌==◌, if◌then◌else◌,
}
use fusion_index.Strconv.{ℤ, pos, negsuc}
use fusion_index.Semver.{Semver, to_text}
use fusion_index.Db.{Version, FileStatus, pending, available, error, File, Db, ok, Statement}
use fusion_index.Db.Versions.{is_protected}
use fusion_index.Db.Windowed.{Counted, counted_rows, limited}

-- The size filters are int64, keep_last is the int32 of the request.
pub record VersionFilter : Type 0 where
  pub keep_last : Option ℤ
  pub older_than : Option ℕ
  pub from : Option Semver
  pub below : Option Semver
  pub versions : Option (List Text)
  pub has_files : Option Bool
  pub has_incomplete_files : Option Bool
  pub min_bytes : Option ℕ
  pub max_bytes : Option ℕ

abbrev pub semver_of : Version → Semver
semver_of v = record { major = v.major; minor = v.minor; patch = v.patch }

-- (a.major, a.minor, a.patch) < (b.major, b.minor, b.patch)
unfoldable pub semver_lt : Semver → Semver → Bool
semver_lt a b =
    ltb a.major b.major
    || (a.major == b.major && (ltb a.minor b.minor || (a.minor == b.minor && ltb a.patch b.patch)))

-- A NULL filter passes every row.
unfoldable pub passes : {A : Type 0} → (A → Bool) → Option A → Bool
passes test none = true
passes test (some a) = test a

unfoldable pub count : {A : Type 0} → (A → Bool) → List A → ℕ
count p [] = 0
count p (x ∷ xs) = let rest = count p xs in if p x then suc rest else rest

unfoldable pub newer : Version → Version → Bool
unfolding semver_lt
newer v u = u.artifact_id == v.artifact_id && semver_lt (semver_of v) (semver_of u)

-- The row number among the versions of the same artifact, newest first; no two are equal.
unfoldable pub rank : Db → Version → ℕ
unfolding count newer
rank db v = suc (count (newer v) db.versions)

-- rn > keep_last
unfoldable pub outside : ℕ → ℤ → Bool
outside rn (pos k) = ltb k rn
outside rn (negsuc k) = true

unfoldable pub same : Bool → Bool → Bool
same true b = b
same false b = not b

unfoldable pub is_incomplete : FileStatus → Bool
is_incomplete pending = true
is_incomplete available = false
is_incomplete error = true

unfoldable pub size_of : FileStatus → Option ℕ → ℕ
size_of available (some n) = n
size_of _ _ = 0

-- The total_bytes column, by what migration 000009 says that it holds: the sum over the AVAILABLE
-- files of the version.
unfoldable pub total_bytes : ℕ → List File → ℕ
unfolding size_of
total_bytes id [] = 0
total_bytes id (f ∷ fs) =
    (if f.version_id == id then size_of f.status f.size_bytes else 0) + total_bytes id fs

unfoldable pub matches : VersionFilter → Db → Version → Bool
unfolding passes outside rank semver_lt same is_incomplete total_bytes
matches q db v =
    passes (outside (rank db v)) q.keep_last
    && passes (ltb v.created_at) q.older_than
    && passes (λ from. not (semver_lt (semver_of v) from)) q.from
    && passes (semver_lt (semver_of v)) q.below
    && passes (exists (text_eq (to_text (semver_of v)))) q.versions
    && passes (same (exists (λ f. f.version_id == v.id) db.files)) q.has_files
    && passes (same (exists (λ f. f.version_id == v.id && is_incomplete f.status) db.files))
        q.has_incomplete_files
    && passes (λ n. leb n (total_bytes v.id db.files)) q.min_bytes
    && passes (leb (total_bytes v.id db.files)) q.max_bytes

-- ORDER BY artifact_id, major DESC, minor DESC, patch DESC
unfoldable pub row_before : Version → Version → Bool
unfolding semver_lt
row_before u v =
    ltb u.artifact_id v.artifact_id
    || (u.artifact_id == v.artifact_id && semver_lt (semver_of v) (semver_of u))

unfoldable pub insert_row : Version → List Version → List Version
unfolding row_before
insert_row v [] = v ∷ []
insert_row v (u ∷ us) =
    let rest = insert_row v us in if row_before u v then u ∷ rest else v ∷ u ∷ us

unfoldable pub sort_rows : List Version → List Version
unfolding insert_row
sort_rows [] = []
sort_rows (v ∷ vs) = insert_row v (sort_rows vs)

pub record FilteredRow : Type 0 where
  pub version : Version
  pub protected : Bool

unfoldable pub in_artifact : Option ℕ → Version → Bool
unfolding passes
in_artifact artifact_id v = passes (λ id. v.artifact_id == id) artifact_id

unfoldable pub selects : Option ℕ → VersionFilter → Db → Version → Bool
unfolding in_artifact matches
selects artifact_id q db v = in_artifact artifact_id v && matches q db v

unfoldable pub to_row : Text → Db → Version → FilteredRow
to_row protected_tag db v = record { version = v; protected = is_protected protected_tag db v }

-- Without LIMIT and OFFSET, as the bulk deletes call it.
unfoldable pub list_versions_filtered :
    Option ℕ → VersionFilter → Text → Bool → Statement (List FilteredRow)
unfolding selects sort_rows to_row
list_versions_filtered artifact_id q protected_tag deletable_only now db = (
  ok (
      map (to_row protected_tag db) (
        sort_rows (
          keep_if
            (λ v.
              selects artifact_id q db v && not (deletable_only && is_protected protected_tag db v))
            db.versions))),
  db,
)

-- With what the version lists show: the rows that pass the filter, in order.
unfoldable pub matched_rows : Option ℕ → VersionFilter → Text → Bool → Db → List FilteredRow
unfolding selects sort_rows to_row
matched_rows artifact_id q protected_tag deletable_only db = map (to_row protected_tag db) (
    sort_rows (
      keep_if
        (λ v. selects artifact_id q db v && not (deletable_only && is_protected protected_tag db v))
        db.versions))

-- With LIMIT and OFFSET, as the version lists call it.
unfoldable pub list_versions_window :
    Option ℕ → VersionFilter → Text → Bool → Option ℤ → ℤ → Statement (List (Counted FilteredRow))
unfolding matched_rows limited counted_rows
list_versions_window artifact_id q protected_tag deletable_only limit offset now db = (
  limited limit offset (counted_rows (matched_rows artifact_id q protected_tag deletable_only db)),
  db,
)
