-- ===== src/Handlers/Retention/Query.antt =====
-- The filter that versionFilter of internal/api/handlers/retention.go renders, read back by the
-- version list and the bulk delete of version_bulk.go.
use fusion_index.Prelude.{
  ℕ, ◌+◌, ◌*◌, ◌%◌, ◌^◌, ◌≤◌, ◌<◌, ◌≡◌, Bool, Option, none, some, [], ◌∷◌, Text, codes, text_eq,
  ltb, if◌then◌else◌,
}
use fusion_index.Strconv.{ℤ, pos}
use fusion_index.Db.{Db, Version}
use fusion_index.Db.Filtered.{VersionFilter}
use fusion_index.Retention.{RetentionRule}
use fusion_index.Handlers.Params.{parse_optional_older_than}
use fusion_index.Handlers.Bulk.{FilterQuery}
use fusion_index.Handlers.Retention.{Values, one_second, one_day, whole_seconds, cutoff_at}

-- c.Query: the value of a key, empty where it is not set.
unfoldable pub value_of : Text → Values → Text
value_of key [] = []
value_of key (e ∷ es) = if text_eq e.0 key then e.1 else value_of key es

-- A request whose query has these values, and no dry run.
unfoldable pub query_of : Values → FilterQuery
unfolding value_of
query_of values = record {
  keep_last = value_of (codes "keepLast") values;
  older_than = value_of (codes "olderThan") values;
  from = value_of (codes "from") values;
  below = value_of (codes "below") values;
  versions = [];
  has_files = value_of (codes "hasFiles") values;
  has_incomplete_files = value_of (codes "hasIncompleteFiles") values;
  min_bytes = value_of (codes "minBytes") values;
  max_bytes = value_of (codes "maxBytes") values;
  dry_run = value_of (codes "dryRun") values;
}

-- A rule as the database keeps it: keepLast is an int32 of at least 1.
abbrev pub IsRule : RetentionRule → Type 0
IsRule rule = (k : ℕ) → rule.keep_last ≡ some k → (1 ≤ k) × (k < 2 ^ 31)

abbrev kept_last : Option ℕ → Option ℤ
kept_last none = none
kept_last (some k) = some (pos k)

abbrev limit : (ℕ → ℕ) → Option ℕ → Option ℕ
limit instant none = none
limit instant (some days) = some (instant days)

abbrev filter_of : (ℕ → ℕ) → RetentionRule → VersionFilter
filter_of instant rule = record {
  keep_last = kept_last rule.keep_last;
  older_than = limit instant rule.max_age_days;
  from = none;
  below = none;
  versions = none;
  has_files = none;
  has_incomplete_files = none;
  min_bytes = none;
  max_bytes = none;
}

-- A version that was created more than that many days before the whole second.
abbrev pub is_aged : ℕ → Version → ℕ → Bool
is_aged now v days = ltb (v.created_at + days * one_day) (whole_seconds now)

module _ (parse_time : Text → Option ℕ) (format : ℕ → Text) (now : ℕ)
    (reads : (t : ℕ)
      → t ≤ now
      → t % one_second ≡ 0
      → parse_optional_older_than parse_time (format t) ≡ some (some t)) where
  abbrev instant : ℕ → ℕ
  instant = cutoff_at now
