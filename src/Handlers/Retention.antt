-- ===== src/Handlers/Retention.antt =====
-- internal/api/handlers/retention.go: the policies of artifacts and of types. A policy's order in
-- the list of all is that of the database, the parameter `named_before`.
pub mod Put
pub mod Query
use fusion_index.Prelude.{
  ℕ, ◌-◌, ◌*◌, ◌%◌, zero, suc, Bool, Option, none, some, List, [], ◌∷◌, ◌++◌, Text, codes, length,
  text_eq, if◌then◌else◌,
}
use fusion_index.Strconv.{print}
use fusion_index.Db.{DbResult, ok, err, no_rows, RetentionPolicy}
use fusion_index.Db.Artifacts.{get_registry_artifact}
use fusion_index.Db.Types.{get_artifact_type}
use fusion_index.Db.Policies.{
  Target, of_artifact, of_type, NamedPolicy, get_retention_policy, delete_retention_policy,
  upsert_retention_policy, list_type_retention_policies_for_artifact, list_retention_policies,
}
use fusion_index.Retention.{RetentionRule, Effective, effective}
use fusion_index.Session.{World, run}
use fusion_index.Handlers.{
  Step, next, failed, Handler, ◌>>=◌, ◌>>◌, pure, fail, require, ◌or◌, internal_error,
  not_found_or_internal,
}
use fusion_index.Handlers.Params.{path_id}

-- bindRetentionRequest: a body that binds sets at least one of the fields.
unfoldable pub bind_retention_request : Option RetentionRule → Option RetentionRule
bind_retention_request none = none
bind_retention_request (some req) = elim req.keep_last [
  | none ↦ elim req.max_age_days [ none ↦ none | some days ↦ some req ]
  | some k ↦ some req
]

-- A policy that is not there is no error.
unfoldable pub own_policy : DbResult RetentionPolicy → Step (Option RetentionPolicy)
own_policy (ok p) = next (some p)
own_policy (err no_rows) = next none
own_policy (err e) = failed 500

unfoldable pub find_own : ℕ → Handler (Option RetentionPolicy)
unfolding own_policy
find_own id w = let (r, w') = run (get_retention_policy (of_artifact id)) w in (own_policy r, w')

pub record EffectiveRetentionResponse : Type 0 where
  pub own : Option RetentionPolicy
  pub from_types : List RetentionPolicy
  pub in_force : Effective

-- GetForArtifact, less the text of the filter, which is that of the rule in force.
unfoldable pub get_retention_for_artifact : Text → Handler EffectiveRetentionResponse
unfolding find_own
get_retention_for_artifact raw_id = do
  id ← require 400 (path_id raw_id)
  _ ← run (get_registry_artifact id) or not_found_or_internal
  own ← find_own id
  from_types ← run (list_type_retention_policies_for_artifact id) or internal_error
  pure (record { own = own; from_types = from_types; in_force = effective own from_types })

-- PutForArtifact
unfoldable pub put_retention_for_artifact : Text → Option RetentionRule → Handler RetentionPolicy
unfolding bind_retention_request
put_retention_for_artifact raw_id req = do
  id ← require 400 (path_id raw_id)
  req ← require 400 (bind_retention_request req)
  _ ← run (get_registry_artifact id) or not_found_or_internal
  run (upsert_retention_policy (of_artifact id) req.keep_last req.max_age_days) or internal_error

unfoldable pub found_any : ℕ → Handler (Unit {0})
found_any zero = fail 404
found_any (suc n) = pure tt

-- DeleteForArtifact
unfoldable pub delete_retention_for_artifact : Text → Handler (Unit {0})
unfolding found_any
delete_retention_for_artifact raw_id = do
  id ← require 400 (path_id raw_id)
  n ← run (delete_retention_policy (of_artifact id)) or internal_error
  found_any n

-- GetForType
unfoldable pub get_retention_for_type : Text → Handler RetentionPolicy
get_retention_for_type raw_type_id = do
  id ← require 400 (path_id raw_type_id)
  run (get_retention_policy (of_type id)) or not_found_or_internal

-- PutForType
unfoldable pub put_retention_for_type : Text → Option RetentionRule → Handler RetentionPolicy
unfolding bind_retention_request
put_retention_for_type raw_type_id req = do
  id ← require 400 (path_id raw_type_id)
  req ← require 400 (bind_retention_request req)
  _ ← run (get_artifact_type id) or not_found_or_internal
  run (upsert_retention_policy (of_type id) req.keep_last req.max_age_days) or internal_error

-- DeleteForType
unfoldable pub delete_retention_for_type : Text → Handler (Unit {0})
unfolding found_any
delete_retention_for_type raw_type_id = do
  id ← require 400 (path_id raw_type_id)
  n ← run (delete_retention_policy (of_type id)) or internal_error
  found_any n

-- List
unfoldable pub list_policies : (NamedPolicy → NamedPolicy → Bool) → Handler (List NamedPolicy)
list_policies named_before = run (list_retention_policies named_before) or internal_error

-- A value of url.Values, where each key is set once.
abbrev pub Values : Type 0
Values = List (Text × Text)

unfoldable pub set_keep_last : Option ℕ → Values
set_keep_last none = []
set_keep_last (some n) = (codes "keepLast", print n) ∷ []

-- A time is the number of nanoseconds since the zero time.
abbrev pub one_second : ℕ
one_second = 1000000000

abbrev pub one_day : ℕ
one_day = 86400 * one_second

-- AddDate(0, 0, -days) in UTC
unfoldable pub days_before : ℕ → ℕ → ℕ
days_before now days = now - days * one_day

-- Truncate(time.Second)
unfoldable pub whole_seconds : ℕ → ℕ
whole_seconds t = t - t % one_second

-- The instant that olderThan names.
unfoldable pub cutoff_at : ℕ → ℕ → ℕ
unfolding days_before whole_seconds
cutoff_at now days = whole_seconds (days_before now days)

module _ (format : ℕ → Text) (now : ℕ) where
  unfoldable pub set_older_than : Option ℕ → Values
  unfolding cutoff_at
  set_older_than none = []
  set_older_than (some days) = (codes "olderThan", format (cutoff_at now days)) ∷ []

  -- The values that versionFilter encodes
  unfoldable pub filter_values : RetentionRule → Values
  unfolding set_keep_last set_older_than
  filter_values rule = set_keep_last rule.keep_last ++ set_older_than rule.max_age_days

  -- versionFilter, over the encoding of url.Values and the format RFC 3339
  unfoldable pub version_filter : (Values → Text) → Option RetentionRule → Text
  unfolding filter_values
  version_filter encode none = []
  version_filter encode (some rule) = encode (filter_values rule)
