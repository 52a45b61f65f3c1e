-- ===== src/Retention/Merge.antt =====
-- The merged rule is conservative.
use fusion_index.Prelude.{
  ℕ, ◌≡◌, refl, ◌∙◌, Bool, true, ◌&&◌, Option, none, some, List, [], ◌∷◌, arith,
}
use fusion_index.Db.{RetentionPolicy}
use fusion_index.Retention.{RetentionRule, larger, merge_from, merge_retention, beyond, expires}

beyond-larger : (n : ℕ) (a b : Option ℕ) → beyond n (larger a b) ≡ (beyond n a && beyond n b)
unfolding beyond larger
beyond-larger n none none = refl
beyond-larger n (some a) none = ground arith
beyond-larger n none (some b) = refl
beyond-larger n (some a) (some b) = ground arith

-- Whether every policy would delete a version of this rank and age.
abbrev pub all_expire : ℕ → ℕ → List RetentionPolicy → Bool
all_expire rank age [] = true
all_expire rank age (p ∷ ps) = expires rank age p.keep_last p.max_age_days && all_expire rank age ps

merge_from-expires :
    (rank age : ℕ) (rule : RetentionRule) (ps : List RetentionPolicy)
    → (let m = merge_from rule ps in expires rank age m.keep_last m.max_age_days)
      ≡ (expires rank age rule.keep_last rule.max_age_days && all_expire rank age ps)
unfolding merge_from expires
merge_from-expires rank age rule [] = ground arith
merge_from-expires rank age rule (p ∷ ps) = ground (
  arith,
  merge_from-expires rank age
      (record {
        keep_last = larger rule.keep_last p.keep_last;
        max_age_days = larger rule.max_age_days p.max_age_days;
      })
      ps,
  beyond-larger rank rule.keep_last p.keep_last,
  beyond-larger age rule.max_age_days p.max_age_days,
)

-- The rule merged from one or more policies deletes a version of a given rank and age exactly if
-- every one of the policies would.
pub merge_retention-expires :
    (rank age : ℕ) (p : RetentionPolicy) (ps : List RetentionPolicy)
    → (rule : RetentionRule) × (merge_retention (p ∷ ps) ≡ some rule)
      × (expires rank age rule.keep_last rule.max_age_days ≡ all_expire rank age (p ∷ ps))
unfolding merge_retention expires
merge_retention-expires rank age p ps = (
  merge_from (record { keep_last = none; max_age_days = none }) (p ∷ ps),
  refl,
  merge_from-expires rank age (record { keep_last = none; max_age_days = none }) (p ∷ ps)
      ∙ unset rank age _,
)
  where
    unset : (rank age : ℕ) (b : Bool) → (expires rank age none none && b) ≡ b
    unset rank age b = refl
