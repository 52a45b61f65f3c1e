-- ===== src/Db/Policies.antt =====
-- internal/db/sqlc/registry_retention.sql.go: the statements on retention policies.
use fusion_index.Prelude.{
  ℕ, ◌+◌, Bool, false, ◌&&◌, not, Option, none, some, List, ◌∷◌, map, length, Text, keep_if, find,
  exists, leb, ◌==◌, if◌then◌else◌,
}
use fusion_index.Db.{
  Artifact, ArtifactType, RetentionPolicy, Db, foreign_key_violation, ok, err, Statement, one_row,
  increment, refers,
}
use fusion_index.Db.Artifacts.{find_artifact}
use fusion_index.Db.Types.{find_type}
use fusion_index.Db.Pages.{order_by}

-- A policy is that of an artifact or of a type.
pub data Target : Type 0 where
  of_artifact of_type : ℕ → Target

unfoldable pub is_of : Target → RetentionPolicy → Bool
unfolding refers
is_of (of_artifact id) p = refers (λ i. i == id) p.artifact_id
is_of (of_type id) p = refers (λ i. i == id) p.type_id

unfoldable pub next_policy : Db → Db
next_policy db = record db {
  sequences = record (db.sequences) { policy = db.sequences.policy + increment };
}

unfoldable pub find_policy : Target → Db → Option RetentionPolicy
unfolding is_of
find_policy target db = find (is_of target) db.policies

-- GetArtifactRetentionPolicy and GetTypeRetentionPolicy
unfoldable pub get_retention_policy : Target → Statement RetentionPolicy
unfolding find_policy one_row
get_retention_policy target now db = (one_row (find_policy target db), db)

-- DeleteArtifactRetentionPolicy and DeleteTypeRetentionPolicy: the number of rows.
unfoldable pub delete_retention_policy : Target → Statement ℕ
unfolding is_of
delete_retention_policy target now db = (
  ok (length (keep_if (is_of target) db.policies)),
  record db { policies = keep_if (λ p. not (is_of target p)) db.policies },
)

unfoldable pub target_exists : Target → Db → Bool
target_exists (of_artifact id) db = exists (λ a. a.id == id) db.artifacts
target_exists (of_type id) db = exists (λ t. t.id == id) db.types

unfoldable pub new_policy : Target → Option ℕ → Option ℕ → ℕ → ℕ → RetentionPolicy
new_policy (of_artifact i) keep_last max_age_days id now = record {
  id = id;
  artifact_id = some i;
  type_id = none;
  keep_last = keep_last;
  max_age_days = max_age_days;
  created_at = now;
  updated_at = now;
}
new_policy (of_type i) keep_last max_age_days id now = record {
  id = id;
  artifact_id = none;
  type_id = some i;
  keep_last = keep_last;
  max_age_days = max_age_days;
  created_at = now;
  updated_at = now;
}

unfoldable pub set_rule : Target → Option ℕ → Option ℕ → ℕ → RetentionPolicy → RetentionPolicy
unfolding is_of
set_rule target keep_last max_age_days now p =
    if is_of target p
    then record p { keep_last = keep_last; max_age_days = max_age_days; updated_at = now }
    else p

-- UpsertArtifactRetentionPolicy and UpsertTypeRetentionPolicy; an id is drawn either way.
unfoldable pub upsert_retention_policy : Target → Option ℕ → Option ℕ → Statement RetentionPolicy
unfolding next_policy find_policy set_rule new_policy target_exists one_row is_of
upsert_retention_policy target keep_last max_age_days now db =
    if exists (is_of target) db.policies
    then (let db' = record (next_policy db) {
      policies = map (set_rule target keep_last max_age_days now) db.policies;
    } in
        (one_row (find_policy target db'), db'))
    else if not (target_exists target db)
    then (err foreign_key_violation, next_policy db)
    else (let row = new_policy target keep_last max_age_days db.sequences.policy now in
        (ok row, record (next_policy db) { policies = row ∷ db.policies }))

-- ORDER BY type_id
unfoldable pub by_type : RetentionPolicy → RetentionPolicy → Bool
by_type p q = elim p.type_id [
  | none ↦ false
  | some i ↦ elim q.type_id [ none ↦ false | some j ↦ leb i j ]
]

-- The policies of the types that are assigned to an artifact.
unfoldable pub list_type_retention_policies_for_artifact : ℕ → Statement (List RetentionPolicy)
unfolding refers by_type
list_type_retention_policies_for_artifact artifact_id now db = (
  ok (
      order_by by_type (
        keep_if
          (λ p.
            exists (λ m. m.artifact_id == artifact_id && refers (λ i. i == m.type_id) p.type_id)
              db.type_maps)
          db.policies)),
  db,
)

pub record NamedPolicy : Type 0 where
  pub policy : RetentionPolicy
  pub artifact_name : Option Text
  pub type_name : Option Text

abbrev artifact_name_of : Option Artifact → Option Text
artifact_name_of none = none
artifact_name_of (some a) = some a.full_name

abbrev type_name_of : Option ArtifactType → Option Text
type_name_of none = none
type_name_of (some t) = some t.name

-- The LEFT JOINs of ListRetentionPolicies.
unfoldable pub to_named : Db → RetentionPolicy → NamedPolicy
to_named db p = record {
  policy = p;
  artifact_name = elim p.artifact_id [
    | none ↦ none
    | some i ↦ artifact_name_of (find_artifact i db)
  ];
  type_name = elim p.type_id [ none ↦ none | some i ↦ type_name_of (find_type i db) ];
}

unfoldable pub list_retention_policies :
    (NamedPolicy → NamedPolicy → Bool) → Statement (List NamedPolicy)
unfolding to_named
list_retention_policies named_before now db =
    (ok (order_by named_before (map (to_named db) db.policies)), db)
