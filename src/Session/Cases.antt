-- ===== src/Session/Cases.antt =====
-- The outcomes of one call, as rules for any predicate on its answer and the world after it.
use fusion_index.Prelude.{ℕ, List, [], ◌∷◌, Text, All, take}
use fusion_index.Db.{Db, unavailable, DbResult, ok, err, Statement}
use fusion_index.Session.{
  Fate, served, refused, lost, World, next_fate, perform, run, put_object, store_fate, store,
  without, remove_fate, remove,
}

-- An answer that is not lost.
abbrev pub Answered : Fate → Type 0
Answered served = Unit
Answered refused = Unit
Answered (lost n) = ⊥

Answered-next : (fs : List Fate) → All Answered fs → Answered (next_fate fs).0
unfolding next_fate
Answered-next [] h = tt
Answered-next (f ∷ fs) (h, _) = h

Answered-rest : (fs : List Fate) → All Answered fs → All Answered (next_fate fs).1
unfolding next_fate
Answered-rest [] h = tt
Answered-rest (f ∷ fs) (_, h) = h

module _ {A : Type 0} (P : DbResult A × World → Type 0) where
  perform_cases :
      (fate : Fate) (r : DbResult A × Db) (w : World)
      → P (r.0, record w { db = r.1 })
      → P (err unavailable, w)
      → P (err unavailable, record w { db = r.1 })
      → P (perform fate r w)
  unfolding perform
  perform_cases served (s, d) w a b c = a
  perform_cases refused (s, d) w a b c = b
  perform_cases (lost n) (s, d) w a b c = c

  -- A statement is served, or refused with no effect, or its answer is lost after its effect.
  pub run_cases :
      (st : Statement A) (w : World)
      → ((fs : List Fate) → P ((st w.now w.db).0, record w { db = (st w.now w.db).1; fates = fs }))
      → ((fs : List Fate) → P (err unavailable, record w { fates = fs }))
      → ((fs : List Fate) → P (err unavailable, record w { db = (st w.now w.db).1; fates = fs }))
      → P (run st w)
  unfolding run
  run_cases st w a b c =
      perform_cases (next_fate w.fates).0 (st w.now w.db)
        (record w { fates = (next_fate w.fates).1 }) (a _) (b _) (c _)

  perform_answered :
      (fate : Fate) (r : DbResult A × Db) (w : World)
      → Answered fate
      → P (r.0, record w { db = r.1 })
      → P (err unavailable, w)
      → P (perform fate r w)
  unfolding perform
  perform_answered served (s, d) w h a b = a
  perform_answered refused (s, d) w h a b = b
  perform_answered (lost n) (s, d) w h a b = absurd h

  -- Where no answer is lost, a statement is served or has had no effect.
  pub run_answered :
      (st : Statement A) (w : World)
      → All Answered w.fates
      → ((fs : List Fate)
          → All Answered fs
          → P ((st w.now w.db).0, record w { db = (st w.now w.db).1; fates = fs }))
      → ((fs : List Fate) → All Answered fs → P (err unavailable, record w { fates = fs }))
      → P (run st w)
  unfolding run
  run_answered st w h a b =
      perform_answered (next_fate w.fates).0 (st w.now w.db)
        (record w { fates = (next_fate w.fates).1 }) (Answered-next w.fates h)
        (a _ (Answered-rest w.fates h)) (b _ (Answered-rest w.fates h))

module _ (P : DbResult Text × World → Type 0) (p c : Text) where
  store_fate_cases :
      (fate : Fate) (w : World)
      → P (ok p, record w { objects = put_object p c w.objects })
      → P (err unavailable, w)
      → ((n : ℕ) → P (err unavailable, record w { objects = put_object p (take n c) w.objects }))
      → P (store_fate fate p c w)
  unfolding store_fate
  store_fate_cases served w x y z = x
  store_fate_cases refused w x y z = y
  store_fate_cases (lost n) w x y z = z n

  -- A store is complete, or refused, or fails with a part of the object written.
  pub store_cases :
      (w : World)
      → ((fs : List Fate)
          → P (ok p, record w { objects = put_object p c w.objects; storage_fates = fs }))
      → ((fs : List Fate) → P (err unavailable, record w { storage_fates = fs }))
      → ((fs : List Fate) (n : ℕ)
          → P (
            err unavailable,
            record w { objects = put_object p (take n c) w.objects; storage_fates = fs },
          ))
      → P (store p c w)
  unfolding store
  store_cases w x y z =
      store_fate_cases (next_fate w.storage_fates).0
        (record w { storage_fates = (next_fate w.storage_fates).1 }) (x _) (y _) (z _)

module _ (P : World → Type 0) (p : Text) where
  remove_fate_cases :
      (fate : Fate) (w : World)
      → P w
      → P (record w { objects = without p w.objects })
      → P (remove_fate fate p w)
  unfolding remove_fate
  remove_fate_cases served w x y = y
  remove_fate_cases refused w x y = x
  remove_fate_cases (lost n) w x y = y

  -- A best-effort delete has removed the object or not.
  pub remove_cases :
      (w : World)
      → ((fs : List Fate) → P (record w { storage_fates = fs }))
      → ((fs : List Fate) → P (record w { objects = without p w.objects; storage_fates = fs }))
      → P (remove p w)
  unfolding remove
  remove_cases w x y =
      remove_fate_cases (next_fate w.storage_fates).0
        (record w { storage_fates = (next_fate w.storage_fates).1 }) (x _) (y _)
