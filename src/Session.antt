-- ===== src/Session.antt =====
-- What a request handler sees of the world: the database connection with its transaction, the
-- storage of objects, the clock, and what becomes of each call. internal/storage/storage.go gives
-- the operations on objects.
pub mod Objects
pub mod Cases
use fusion_index.Prelude.{
  ℕ, ◌≡◌, refl, Bool, not, Option, none, some, List, [], ◌∷◌, Text, keep_if, find, text_eq, take,
}
use fusion_index.Db.{Db, DbError, unavailable, DbResult, ok, err, Statement}

-- What becomes of each call: statements and transactions take their fates from one list, calls of
-- storage from another. A call is served, or refused with no effect, or its answer is lost after its effect. A store
-- whose answer is lost has written the first `n` bytes.
pub data Fate : Type 0 where
  served refused : Fate
  lost : ℕ → Fate

pub record Object : Type 0 where
  pub path : Text
  pub content : Text

-- `saved` is what a rollback restores, while a transaction is open.
pub record World : Type 0 where
  pub db : Db
  pub saved : Option Db
  pub objects : List Object
  pub now : ℕ
  pub fates : List Fate
  pub storage_fates : List Fate

-- After the list of fates every call is served.
unfoldable pub next_fate : List Fate → Fate × List Fate
next_fate [] = (served, [])
next_fate (f ∷ fs) = (f, fs)

abbrev pub Call : Type 0 → Type 0
Call A = World → DbResult A × World

unfoldable pub perform : {A : Type 0} → Fate → DbResult A × Db → World → DbResult A × World
perform served (r, db') w = (r, record w { db = db' })
perform refused (r, db') w = (err unavailable, w)
perform (lost n) (r, db') w = (err unavailable, record w { db = db' })

unfoldable pub run : {A : Type 0} → Statement A → Call A
unfolding next_fate perform
run st w =
    let (fate, rest) = next_fate w.fates in perform fate (st w.now w.db) (record w { fates = rest })

-- pool.Begin
unfoldable pub begin_fate : Fate → World → DbResult (Unit {0}) × World
begin_fate served w = (ok tt, record w { saved = some w.db })
begin_fate refused w = (err unavailable, w)
begin_fate (lost n) w = (err unavailable, w)

unfoldable pub begin : Call (Unit {0})
unfolding next_fate begin_fate
begin w = let (fate, rest) = next_fate w.fates in begin_fate fate (record w { fates = rest })

-- tx.Commit: a commit that is refused leaves the transaction to the rollback.
unfoldable pub commit_fate : Fate → World → DbResult (Unit {0}) × World
commit_fate served w = (ok tt, record w { saved = none })
commit_fate refused w = (err unavailable, w)
commit_fate (lost n) w = (err unavailable, record w { saved = none })

unfoldable pub commit : Call (Unit {0})
unfolding next_fate commit_fate
commit w = let (fate, rest) = next_fate w.fates in commit_fate fate (record w { fates = rest })

-- tx.Rollback, which after a commit does nothing. Sequences are not rolled back.
unfoldable pub restore : Option Db → World → World
restore none w = w
restore (some d) w = record w { db = record d { sequences = w.db.sequences }; saved = none }

unfoldable pub rollback : World → World
unfolding restore
rollback w = restore w.saved w

unfoldable pub find_object : Text → List Object → Option Object
find_object path objects = find (λ o. text_eq o.path path) objects

unfoldable pub without : Text → List Object → List Object
without path objects = keep_if (λ o. not (text_eq o.path path)) objects

unfoldable pub put_object : Text → Text → List Object → List Object
unfolding without
put_object path content objects = record { path = path; content = content } ∷ without path objects

-- Storage.Store: both backends return the path that was suggested.
unfoldable pub store_fate : Fate → Text → Text → World → DbResult Text × World
unfolding put_object
store_fate served path content w =
    (ok path, record w { objects = put_object path content w.objects })
store_fate refused path content w = (err unavailable, w)
store_fate (lost n) path content w =
    (err unavailable, record w { objects = put_object path (take n content) w.objects })

unfoldable pub store : Text → Text → Call Text
unfolding next_fate store_fate
store path content w =
    let (fate, rest) = next_fate w.storage_fates in
    store_fate fate path content (record w { storage_fates = rest })

-- Storage.Retrieve
unfoldable pub retrieved : Option Object → DbResult Text
retrieved none = err unavailable
retrieved (some o) = ok o.content

unfoldable pub retrieve_fate : Fate → Text → World → DbResult Text
unfolding find_object retrieved
retrieve_fate served path w = retrieved (find_object path w.objects)
retrieve_fate refused path w = err unavailable
retrieve_fate (lost n) path w = err unavailable

unfoldable pub retrieve : Text → Call Text
unfolding next_fate retrieve_fate
retrieve path w =
    let (fate, rest) = next_fate w.storage_fates in
    (retrieve_fate fate path w, record w { storage_fates = rest })

-- Storage.Delete, which deletes an object that is not there without an error.
unfoldable pub remove_fate : Fate → Text → World → World
unfolding without
remove_fate served path w = record w { objects = without path w.objects }
remove_fate refused path w = w
remove_fate (lost n) path w = record w { objects = without path w.objects }

-- A best-effort delete: the error is logged only.
unfoldable pub remove : Text → World → World
unfolding next_fate remove_fate
remove path w =
    let (fate, rest) = next_fate w.storage_fates in
    remove_fate fate path (record w { storage_fates = rest })

unfoldable pub remove_all : List Text → World → World
unfolding remove
remove_all [] w = w
remove_all (p ∷ ps) w = remove_all ps (remove p w)
