-- ===== src/Handlers/Versions/Create.antt =====
-- The creation of a version with its tags: all of it is committed, or nothing.
use fusion_index.Prelude.{ℕ, ◌≡◌, refl, ◌⊎◌, inl, inr, none, some, List, [], Text}
use fusion_index.Semver.{Semver, parse}
use fusion_index.Db.{Version, Tag}
use fusion_index.Session.{World, rollback, restore}
use fusion_index.Session.Objects.{rollback-idle}
use fusion_index.Handlers.{internal_error}
use fusion_index.Handlers.Params.{path_id}
use fusion_index.Handlers.Post.{Post, Post-continue, begin-Post, Post-rollback}
use fusion_index.Handlers.Versions.{CreateVersionRequest, insert_version, create_version}
use fusion_index.Handlers.Versions.Steps.{
  AddsTagged, Open, Done, Fails, Grown, Looped, Began, upsert_tags-Looped, commit-Done,
  create-Grown, find-Began,
}

-- Nothing is committed, up to the ids that were drawn, or a version and all of its tags are.
abbrev pub AllOrNothing : ℕ → Semver → List Text → World → World → Type 0
AllOrNothing a sv names w u =
    (u.saved ≡ none)
    × (u.objects ≡ w.objects)
    × ((u.db ≡ record (w.db) { sequences = u.db.sequences })
        ⊎ ((v : Version) × AddsTagged a sv names v w.db u.db))

module _ (a : ℕ) (sv : Semver) (names : List Text) (w : World) where
  rollback-Open : (u : World) → Open a sv names w u → AllOrNothing a sv names w (rollback u)
  unfolding rollback restore
  rollback-Open u o = rw o.restores (refl, o.objects, inl refl)

  rollback-Done :
      (v : Version) (u : World) → Done a sv names w v u → Done a sv names w v (rollback u)
  unfolding rollback
  rollback-Done v u d = rw (rollback-idle u d.closed) d

  Done-AllOrNothing :
      (v : Version) (u : World) → Done a sv names w v u → AllOrNothing a sv names w u
  Done-AllOrNothing v u d = (d.closed, d.objects, inr (v, d.rows))

  rollback-Fails : (u : World) → Fails a sv names w u → AllOrNothing a sv names w (rollback u)
  rollback-Fails u (inl o) = rollback-Open u o
  rollback-Fails u (inr (v, d)) = Done-AllOrNothing v (rollback u) (rollback-Done v u d)

module _ (a : ℕ) (sv : Semver) (req : CreateVersionRequest) (w : World) where
  abbrev F : World → Type 0
  F u = Fails a sv req.tags w u

  abbrev A : Version × List Tag → World → Type 0
  A r u = Done a sv req.tags w r.0 u

  insert_version-Done : (u : World) → Began a sv req.tags w u → Post A F (insert_version a sv req u)
  unfolding insert_version
  insert_version-Done u b =
      Post-continue (λ _ x. Began a sv req.tags w x) A F _ _ (find-Began a sv req.tags w u b)
        λ _ x b1.
          Post-continue (λ v y. Grown a sv req.tags w v [] y) A F _ _
            (create-Grown a sv req.tags w req.config x b1.0 b1.1)
            λ v y g.
              Post-continue (λ _ z. Looped a sv req.tags w v req.tags [] z) A F _ _
                (upsert_tags-Looped a sv req.tags w v req.tags [] y g)
                λ ts z (o, h, k, _).
                  Post-continue (λ _ q. Done a sv req.tags w v q) A F _ _
                    (commit-Done a sv req.tags w v z (o, (h, k))) λ _ q d. d

-- The creation of a version: if it succeeds, the table has exactly one more version, of the
-- artifact and with the numbers that were asked for, and every requested tag of the artifact points
-- at it. If it fails, whichever calls fail, either all of that is committed or the tables are as
-- they were but for the ids that were drawn. No object changes and no transaction is open.
pub create_version-Adds :
    (raw_id : Text) (a : ℕ) (req : CreateVersionRequest) (sv : Semver) (w : World)
    → w.saved ≡ none
    → path_id raw_id ≡ some a
    → parse req.version ≡ some sv
    → Post
        (λ r u. Done a sv req.tags w r.0 u)
        (AllOrNothing a sv req.tags w)
        (create_version raw_id (some req) w)
unfolding create_version
create_version-Adds raw_id a req sv w idle ha hs =
    rw (ha, hs)
      (Post-continue (λ _ u. Began a sv req.tags w u) (A a sv req w) (AllOrNothing a sv req.tags w)
        _ _
        (begin-Post (λ _ u. Began a sv req.tags w u) (AllOrNothing a sv req.tags w) internal_error w
          (λ fs. (record { restores = refl; objects = refl }, refl)) (λ fs. (idle, refl, inl refl)))
        (λ _ u b.
          Post-rollback (A a sv req w) (F a sv req w) (A a sv req w) (AllOrNothing a sv req.tags w)
            (insert_version a sv req u) (insert_version-Done a sv req w u b)
            (λ r x d. rollback-Done a sv req.tags w r.0 x d)
            (λ x f. rollback-Fails a sv req.tags w x f)))
