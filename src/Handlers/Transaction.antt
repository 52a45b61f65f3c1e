-- ===== src/Handlers/Transaction.antt =====
-- A handler that changes rows in one transaction and deletes objects after the commit, as the bulk
-- delete of version_bulk.go and the delete of artifacts.go do.
use fusion_index.Prelude.{◌≡◌, ◌≢◌, refl, ap, ◌∙◌, none, some, List, Text, All}
use fusion_index.Db.{Db}
use fusion_index.Session.{World, commit, rollback, restore, find_object, remove_all}
use fusion_index.Session.Objects.{
  db-remove_all, saved-remove_all, find_object-remove_all, rollback-idle,
}
use fusion_index.Handlers.{Handler, ◌or◌, internal_error, deferring_rollback}
use fusion_index.Handlers.Post.{Post, commit-Post, Post-rollback}

-- The tables, the objects and the closed transaction are as they were.
pub record IsSame (w u : World) : Type 0 where
  pub rows : u.db ≡ w.db
  pub objects : u.objects ≡ w.objects
  pub idle : u.saved ≡ none

-- Either nothing has changed, or the tables are `d'` and at most the objects at `doomed` are gone.
pub data Settled (d' : Db) (doomed : List Text) (w : World) (w' : World) : Type 0 where
  kept : w'.saved ≡ none → w'.db ≡ w.db → w'.objects ≡ w.objects → Settled d' doomed w w'
  purged :
      w'.saved ≡ none
      → w'.db ≡ d'
      → ((q : Text) → All (λ p. p ≢ q) doomed → find_object q w'.objects ≡ find_object q w.objects)
      → Settled d' doomed w w'

module _ (d' : Db) (doomed : List Text) (w : World) where
  pub record InTransaction (d : Db) (v : World) : Type 0 where
    pub rows : v.db ≡ d
    pub restores : v.saved ≡ some w.db
    pub objects : v.objects ≡ w.objects

  pub record Committed (v : World) : Type 0 where
    pub rows : v.db ≡ d'
    pub closed : v.saved ≡ none
    pub objects : v.objects ≡ w.objects

  pub data Failed (v : World) : Type 0 where
    before_commit :
        v.db.sequences ≡ w.db.sequences → v.saved ≡ some w.db → v.objects ≡ w.objects → Failed v
    after_commit : Committed v → Failed v

  pub commit-Committed :
      (v : World)
      → d'.sequences ≡ w.db.sequences
      → InTransaction d' v
      → Post (λ _ u. Committed u) Failed ((commit or internal_error) v)
  commit-Committed v drawn h =
      commit-Post (λ _ u. Committed u) Failed internal_error v
        (λ fs. record { rows = h.rows; closed = refl; objects = h.objects })
        (λ fs. before_commit (ap (λ d. d.sequences) h.rows ∙ drawn) h.restores h.objects)
        (λ fs. after_commit (record { rows = h.rows; closed = refl; objects = h.objects }))

  rollback-Failed : (v : World) → Failed v → Settled d' doomed w (rollback v)
  unfolding rollback
  rollback-Failed v (before_commit e saved objects) =
      kept (rw (saved, restore)) (rw (saved, restore) (λ i. record (w.db) { sequences = e i }))
        (rw (saved, restore) objects)
  rollback-Failed v (after_commit c) =
      rw (rollback-idle v c.closed) (purged c.closed c.rows (λ q _. ap (find_object q) c.objects))

  rollback-Committed :
      (v : World) (ps : List Text)
      → Committed v
      → ps ≡ doomed
      → Settled d' doomed w (rollback (remove_all ps v))
  unfolding rollback
  rollback-Committed v ps c e =
      rw (rollback-idle (remove_all ps v) (saved-remove_all ps v ∙ c.closed)) (
        purged (saved-remove_all ps v ∙ c.closed) (db-remove_all ps v ∙ c.rows)
          (λ q safe. find_object-remove_all ps q v (rw e safe) ∙ ap (find_object q) c.objects))

  -- The world in which the objects of a committed delete are gone.
  abbrev pub Cleaned : World → Type 0
  Cleaned u = (v : World) × (ps : List Text) × Committed v × (ps ≡ doomed) × (u ≡ remove_all ps v)

  -- The deferred rollback settles what a body leaves.
  pub rollback-Settled :
      {A : Type 0} (body : Handler A) (v : World)
      → Post (λ _ u. Cleaned u) Failed (body v)
      → Post (λ _ u. Settled d' doomed w u) (Settled d' doomed w) (deferring_rollback body v)
  rollback-Settled body v h =
      Post-rollback (λ _ u. Cleaned u) Failed (λ _ u. Settled d' doomed w u) (Settled d' doomed w)
        (body v) h (λ _ u (x, ps, c, e, same). rw same (rollback-Committed x ps c e))
        rollback-Failed
