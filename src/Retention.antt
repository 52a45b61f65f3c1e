-- ===== src/Retention.antt =====
-- internal/api/handlers/retention.go: the rule that is in force for an artifact.
pub mod Merge
use fusion_index.Db.{RetentionPolicy}
use fusion_index.Prelude.{
  ℕ, ◌≡◌, refl, Bool, true, false, ◌&&◌, Option, none, some, List, [], ◌∷◌, ltb, if◌then◌else◌,
}

-- The two fields that a rule is made of.
pub record RetentionRule : Type 0 where
  pub keep_last : Option ℕ
  pub max_age_days : Option ℕ

-- The larger of the rule's field and the policy's, an unset one ignored.
unfoldable pub larger : Option ℕ → Option ℕ → Option ℕ
larger rule none = rule
larger none (some p) = some p
larger (some r) (some p) = if ltb r p then some p else some r

-- The loop over the policies.
unfoldable pub merge_from : RetentionRule → List RetentionPolicy → RetentionRule
unfolding larger
merge_from rule [] = rule
merge_from rule (p ∷ ps) =
    merge_from
      (record {
        keep_last = larger rule.keep_last p.keep_last;
        max_age_days = larger rule.max_age_days p.max_age_days;
      })
      ps

-- mergeRetention
unfoldable pub merge_retention : List RetentionPolicy → Option RetentionRule
unfolding merge_from
merge_retention [] = none
merge_retention (p ∷ ps) =
    some (merge_from (record { keep_last = none; max_age_days = none }) (p ∷ ps))

-- A bound that is unset does not protect a version.
unfoldable pub beyond : ℕ → Option ℕ → Bool
beyond n none = true
beyond n (some bound) = ltb bound n

-- A rule deletes what is outside keepLast and older than maxAgeDays: the filters that
-- versionFilter renders, of which both must match.
unfoldable pub expires : ℕ → ℕ → Option ℕ → Option ℕ → Bool
unfolding beyond
expires rank age keep_last max_age_days = beyond rank keep_last && beyond age max_age_days

pub data Source : Type 0 where
  none_applies artifact types : Source

pub record Effective : Type 0 where
  pub source : Source
  pub rule : Option RetentionRule

-- The answer of GetForArtifact: the artifact's own policy, else those of its types.
unfoldable pub effective : Option RetentionPolicy → List RetentionPolicy → Effective
effective (some own) from_types = record { source = artifact; rule = merge_retention (own ∷ []) }
effective none [] = record { source = none_applies; rule = none }
effective none (p ∷ ps) = record { source = types; rule = merge_retention (p ∷ ps) }
