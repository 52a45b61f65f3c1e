-- ===== src/Handlers/Post.antt =====
-- What holds after a handler: `Q` of the value that it goes on with, or `E` if it has answered.
use fusion_index.Prelude.{ℕ, ◌≡◌, refl, Option, none, some, List, All}
use fusion_index.Db.{DbResult, ok, err, DbError, Statement}
use fusion_index.Session.{
  Fate, served, refused, lost, World, next_fate, run, begin_fate, begin, commit_fate, commit,
  rollback,
}
use fusion_index.Session.Cases.{Answered, run_cases, run_answered}
use fusion_index.Handlers.{Step, next, failed, Handler, continue, require, step_of, ◌or◌}

abbrev pub Post : {A : Type 0} → (A → World → Type 0) → (World → Type 0) → Step A × World → Type 0
Post Q E (next a, w) = Q a w
Post Q E (failed code, w) = E w

-- A chain: the rest is entered in a state that the first part ensures.
pub Post-continue :
    {A B : Type 0} (P : A → World → Type 0) (Q : B → World → Type 0) (E : World → Type 0)
    (r : Step A × World) (f : A → Handler B)
    → Post P E r
    → ((a : A) (w : World) → P a w → Post Q E (f a w))
    → Post Q E (continue r f)
Post-continue P Q E (next a, w) f h k = k a w h
Post-continue P Q E (failed code, w) f h k = h

pub Post-require :
    {A B : Type 0} (Q : B → World → Type 0) (E : World → Type 0) (code : ℕ) (o : Option A)
    (f : A → Handler B) (w : World)
    → E w
    → ((a : A) → o ≡ some a → Post Q E (f a w))
    → Post Q E (continue (require code o w) f)
Post-require Q E code none f w h k = h
Post-require Q E code (some a) f w h k = k a refl

module _ {A : Type 0} (Q : A → World → Type 0) (E : World → Type 0) (status : DbError → ℕ) where
  -- A statement is served, or refused with no effect, or its answer is lost after its effect.
  pub run-Post :
      (st : Statement A) (w : World)
      → ((fs : List Fate)
          → Post Q E
              (step_of status (st w.now w.db).0, record w { db = (st w.now w.db).1; fates = fs }))
      → ((fs : List Fate) → E (record w { fates = fs }))
      → ((fs : List Fate) → E (record w { db = (st w.now w.db).1; fates = fs }))
      → Post Q E ((run st or status) w)
  run-Post st w a b c = run_cases (λ r. Post Q E (step_of status r.0, r.1)) st w a b c

  -- Where no answer is lost, a statement is served or has had no effect.
  pub run-Post-Answered :
      (st : Statement A) (w : World)
      → All Answered w.fates
      → ((fs : List Fate)
          → All Answered fs
          → Post Q E
              (step_of status (st w.now w.db).0, record w { db = (st w.now w.db).1; fates = fs }))
      → ((fs : List Fate) → All Answered fs → E (record w { fates = fs }))
      → Post Q E ((run st or status) w)
  run-Post-Answered st w h a b = run_answered (λ r. Post Q E (step_of status r.0, r.1)) st w h a b

module _ (Q : Unit {0} → World → Type 0) (E : World → Type 0) (status : DbError → ℕ) where
  begin_fate-Post :
      (fate : Fate) (w : World)
      → Q tt (record w { saved = some w.db })
      → E w
      → Post Q E (let (s, w') = begin_fate fate w in (step_of status s, w'))
  unfolding begin_fate
  begin_fate-Post served w a b = a
  begin_fate-Post refused w a b = b
  begin_fate-Post (lost n) w a b = b

  -- A transaction is open, or it is not and nothing has happened.
  pub begin-Post :
      (w : World)
      → ((fs : List Fate) → Q tt (record w { saved = some w.db; fates = fs }))
      → ((fs : List Fate) → E (record w { fates = fs }))
      → Post Q E ((begin or status) w)
  unfolding begin
  begin-Post w a b =
      begin_fate-Post (next_fate w.fates).0 (record w { fates = (next_fate w.fates).1 }) (a _) (b _)

  commit_fate-Post :
      (fate : Fate) (w : World)
      → Q tt (record w { saved = none })
      → E w
      → E (record w { saved = none })
      → Post Q E (let (s, w') = commit_fate fate w in (step_of status s, w'))
  unfolding commit_fate
  commit_fate-Post served w a b c = a
  commit_fate-Post refused w a b c = b
  commit_fate-Post (lost n) w a b c = c

  -- The transaction is committed, or still open, or committed with the answer lost.
  pub commit-Post :
      (w : World)
      → ((fs : List Fate) → Q tt (record w { saved = none; fates = fs }))
      → ((fs : List Fate) → E (record w { fates = fs }))
      → ((fs : List Fate) → E (record w { saved = none; fates = fs }))
      → Post Q E ((commit or status) w)
  unfolding commit
  commit-Post w a b c =
      commit_fate-Post (next_fate w.fates).0 (record w { fates = (next_fate w.fates).1 }) (a _)
        (b _) (c _)

-- The deferred rollback runs on both ways out.
pub Post-rollback :
    {A : Type 0} (P : A → World → Type 0) (F : World → Type 0) (Q : A → World → Type 0)
    (E : World → Type 0) (r : Step A × World)
    → Post P F r
    → ((a : A) (w : World) → P a w → Q a (rollback w))
    → ((w : World) → F w → E (rollback w))
    → Post Q E (r.0, rollback r.1)
Post-rollback P F Q E (next a, w) h k l = k a w h
Post-rollback P F Q E (failed code, w) h k l = l w h

-- What holds on both ways out holds of the world that the handler leaves.
pub Post-world :
    {A : Type 0} (P : World → Type 0) (r : Step A × World) → Post (λ _ w. P w) P r → P r.1
Post-world P (next a, w) h = h
Post-world P (failed code, w) h = h

pub Post-of_world :
    {A : Type 0} (P : World → Type 0) (r : Step A × World) → P r.1 → Post (λ _ w. P w) P r
Post-of_world P (next a, w) h = h
Post-of_world P (failed code, w) h = h

-- An answer that leaves the same world on both ways out.
pub Post-step :
    {A : Type 0} (Q E : World → Type 0) (status : DbError → ℕ) (r : DbResult A) (w : World)
    → Q w
    → E w
    → Post (λ _. Q) E (step_of status r, w)
Post-step Q E status (ok a) w q e = q
Post-step Q E status (err x) w q e = e

-- An answer, taken apart.
pub Post-step_of :
    {A : Type 0} (Q : A → World → Type 0) (E : World → Type 0) (status : DbError → ℕ)
    (r : DbResult A) (w : World)
    → ((a : A) → r ≡ ok a → Q a w)
    → E w
    → Post Q E (step_of status r, w)
Post-step_of Q E status (ok a) w q e = q a refl
Post-step_of Q E status (err x) w q e = e

pub Post-map :
    {A : Type 0} (P Q : A → World → Type 0) (E : World → Type 0) (r : Step A × World)
    → ((a : A) (w : World) → P a w → Q a w)
    → Post P E r
    → Post Q E r
Post-map P Q E (next a, w) f h = f a w h
Post-map P Q E (failed code, w) f h = h
