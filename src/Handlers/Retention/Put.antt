-- ===== src/Handlers/Retention/Put.antt =====
-- What a put of a retention policy leaves in the tables.
use fusion_index.Prelude.{
  ℕ, ◌≡◌, refl, sym, ap, ◌∙◌, true, not, Option, none, some, List, ◌∷◌, map, Text, find, find-map,
  exists, exists-of_none, if_cases, Bool-cases, inl, inr, ==_refl, All, find_holds,
}
use mathlib.Core.Bool.{false≢true}
use fusion_index.Db.{Db, RetentionPolicy, DbResult, ok, err, one_row, refers, Statement}
use fusion_index.Db.Artifacts.{get_registry_artifact}
use fusion_index.Db.Types.{get_artifact_type}
use fusion_index.Db.Policies.{
  Target, of_artifact, of_type, is_of, next_policy, find_policy, target_exists, new_policy,
  set_rule, upsert_retention_policy,
}
use fusion_index.Retention.{RetentionRule}
use fusion_index.Session.{Fate, World, run}
use fusion_index.Session.Cases.{Answered}
use fusion_index.Handlers.{step_of, ◌>>=◌, ◌or◌, internal_error, not_found_or_internal}
use fusion_index.Handlers.Params.{path_id}
use fusion_index.Handlers.Post.{Post, Post-continue, Post-require, Post-step, run-Post-Answered}
use fusion_index.Handlers.Retention.{
  bind_retention_request, put_retention_for_artifact, put_retention_for_type,
}

new_policy-is_of :
    (target : Target) (k m : Option ℕ) (id now : ℕ)
    → is_of target (new_policy target k m id now) ≡ true
unfolding is_of new_policy refers
new_policy-is_of (of_artifact i) k m id now = ==_refl i
new_policy-is_of (of_type i) k m id now = ==_refl i

new_policy-rule :
    (target : Target) (k m : Option ℕ) (id now : ℕ)
    → ((new_policy target k m id now).keep_last ≡ k)
      × ((new_policy target k m id now).max_age_days ≡ m)
unfolding new_policy
new_policy-rule (of_artifact i) k m id now = (refl, refl)
new_policy-rule (of_type i) k m id now = (refl, refl)

module _ (target : Target) (k m : Option ℕ) (now : ℕ) where
  set_rule-is_of : (p : RetentionPolicy) → is_of target (set_rule target k m now p) ≡ is_of target p
  unfolding set_rule is_of
  set_rule-is_of p = elim (Bool-cases (is_of target p)) [
    | inl e ↦ rw e (same target p e)
    | inr e ↦ rw e e
  ]
    where
      same :
          (t : Target) (p : RetentionPolicy)
          → is_of t p ≡ true
          → is_of t (record p { keep_last = k; max_age_days = m; updated_at = now }) ≡ true
      same (of_artifact i) p e = e
      same (of_type i) p e = e

  set_rule-rule :
      (p : RetentionPolicy)
      → is_of target p ≡ true
      → ((set_rule target k m now p).keep_last ≡ k) × ((set_rule target k m now p).max_age_days ≡ m)
  unfolding set_rule
  set_rule-rule p e = rw e (refl, refl)

  -- The policy of the target is the row, and the row has the fields of the request.
  abbrev pub Ruled : RetentionPolicy → Db → Type 0
  Ruled p d = (find_policy target d ≡ some p) × (p.keep_last ≡ k) × (p.max_age_days ≡ m)

  -- A statement that fails leaves the policies as they were.
  abbrev Upserted : Db → DbResult RetentionPolicy × Db → Type 0
  Upserted db (ok p, d) = Ruled p d
  Upserted db (err e, d) = d.policies ≡ db.policies

  updated :
      (db : Db) (o : Option RetentionPolicy)
      → find (is_of target) db.policies ≡ o
      → exists (is_of target) db.policies ≡ true
      → Upserted db (
          let db' = record (next_policy db) {
            policies = map (set_rule target k m now) db.policies;
          } in
          (one_row (find_policy target db'), db'))
  unfolding find_policy one_row
  updated db none none_found there =
      absurd (false≢true (sym (exists-of_none (is_of target) db.policies none_found) ∙ there))
  updated db (some p) found there =
      let now_found =
        find-map (is_of target) (set_rule target k m now) db.policies p set_rule-is_of found in
      let (last, days) = set_rule-rule p (find_holds (is_of target) db.policies p found) in
      rw now_found (now_found, last, days)

  upsert-Upserted : (db : Db) → Upserted db (upsert_retention_policy target k m now db)
  unfolding upsert_retention_policy next_policy find_policy find
  upsert-Upserted db = elim (Bool-cases (exists (is_of target) db.policies)) [
    | inl there ↦ rw there (updated db _ refl there)
    | inr absent ↦ rw absent (
        if_cases (Upserted db) (not (target_exists target db)) _ _ refl (
          let (last, days) = new_policy-rule target k m db.sequences.policy now in
          (added (new_policy-is_of target k m db.sequences.policy now), last, days)))
  ]
    where
      added :
          is_of target (new_policy target k m db.sequences.policy now) ≡ true
          → find (is_of target) (new_policy target k m db.sequences.policy now ∷ db.policies)
            ≡ some (new_policy target k m db.sequences.policy now)
      added e = rw e refl

-- The request binds, and the policy in the tables is the one returned and has its fields.
pub record IsInForce (target : Target) (req : Option RetentionRule) (p : RetentionPolicy) (d : Db)
    : Type 0 where
  pub rule : RetentionRule
  pub bound : bind_retention_request req ≡ some rule
  pub current : find_policy target d ≡ some p
  pub keep_last : p.keep_last ≡ rule.keep_last
  pub max_age_days : p.max_age_days ≡ rule.max_age_days

module _ (target : Target) (req : Option RetentionRule) (w : World) where
  -- The policies are as they were, and no answer is lost.
  abbrev pub Untouched : World → Type 0
  Untouched u = (u.db.policies ≡ w.db.policies) × All Answered u.fates

  abbrev pub SamePolicies : World → Type 0
  SamePolicies u = u.db.policies ≡ w.db.policies

  Upserted-Post :
      (rule : RetentionRule) (r : DbResult RetentionPolicy × Db) (u : World)
      → bind_retention_request req ≡ some rule
      → SamePolicies u
      → Upserted target rule.keep_last rule.max_age_days u.now u.db r
      → (fs : List Fate)
      → Post
          (λ p v. IsInForce target req p v.db)
          SamePolicies
          (step_of internal_error r.0, record u { db = r.1; fates = fs })
  Upserted-Post rule (ok p, d) u bound same (current, last, days) fs = record {
    rule = rule;
    bound = bound;
    current = current;
    keep_last = last;
    max_age_days = days;
  }
  Upserted-Post rule (err e, d) u bound same kept fs = kept ∙ same

  pub upsert-Post :
      (rule : RetentionRule) (u : World)
      → bind_retention_request req ≡ some rule
      → Untouched u
      → Post
          (λ p v. IsInForce target req p v.db)
          SamePolicies
          ((run (upsert_retention_policy target rule.keep_last rule.max_age_days) or internal_error)
            u)
  upsert-Post rule u bound (same, answered) =
      run-Post-Answered (λ p v. IsInForce target req p v.db) SamePolicies internal_error
        (upsert_retention_policy target rule.keep_last rule.max_age_days) u answered
        (λ fs _.
          Upserted-Post rule _ u bound same
            (upsert-Upserted target rule.keep_last rule.max_age_days u.now u.db) fs)
        (λ fs _. same)

  -- The put once the target is looked up by a statement that only reads.
  put-Post :
      {A : Type 0} (look_up : Statement A) (rule : RetentionRule)
      → ((now : ℕ) (d : Db) → (look_up now d).1 ≡ d)
      → bind_retention_request req ≡ some rule
      → All Answered w.fates
      → Post
          (λ p v. IsInForce target req p v.db)
          SamePolicies
          (((run look_up or not_found_or_internal) >>= λ _.
              run (upsert_retention_policy target rule.keep_last rule.max_age_days)
              or internal_error)
            w)
  put-Post look_up rule reads bound answered =
      Post-continue (λ _. Untouched) (λ p v. IsInForce target req p v.db) SamePolicies _ _
        (run-Post-Answered (λ _. Untouched) SamePolicies not_found_or_internal look_up w answered
          (λ fs rest.
            Post-step Untouched SamePolicies not_found_or_internal _ _
              (ap (λ d. d.policies) (reads w.now w.db), rest)
              (ap (λ d. d.policies) (reads w.now w.db)))
          (λ fs _. refl))
        (λ _ u k. upsert-Post rule u bound k)

-- Where no answer is lost, a put of a policy of an artifact or of a type that succeeds returns the
-- policy that the tables then hold for it, with exactly the fields of the request; a put that fails
-- leaves every policy as it was.
pub put_retention-IsInForce :
    (raw_id : Text) (id : ℕ) (req : Option RetentionRule) (w : World)
    → path_id raw_id ≡ some id
    → All Answered w.fates
    → Post
        (λ p u. IsInForce (of_artifact id) req p u.db)
        (λ u. u.db.policies ≡ w.db.policies)
        (put_retention_for_artifact raw_id req w)
      × Post
          (λ p u. IsInForce (of_type id) req p u.db)
          (λ u. u.db.policies ≡ w.db.policies)
          (put_retention_for_type raw_id req w)
unfolding put_retention_for_artifact put_retention_for_type get_registry_artifact get_artifact_type
put_retention-IsInForce raw_id id req w h answered = rw h (
  Post-require (λ p u. IsInForce (of_artifact id) req p u.db) E 400 (bind_retention_request req) _ w
      refl
      (λ rule bound.
        put-Post (of_artifact id) req w (get_registry_artifact id) rule (λ now d. refl) bound
          answered),
  Post-require (λ p u. IsInForce (of_type id) req p u.db) E 400 (bind_retention_request req) _ w
      refl
      (λ rule bound.
        put-Post (of_type id) req w (get_artifact_type id) rule (λ now d. refl) bound answered),
)
  where
    E : World → Type 0
    E u = u.db.policies ≡ w.db.policies
