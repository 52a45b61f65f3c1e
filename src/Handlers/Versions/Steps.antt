-- ===== src/Handlers/Versions/Steps.antt =====
-- The steps of the creation of a version with its tags, inside the transaction.
use fusion_index.Prelude.{
  ℕ, ◌≡◌, refl, ◌∙◌, ◌⊎◌, inl, inr, Option, none, some, List, [], ◌∷◌, Text, All, All-map, exists,
  not, ◌==◌, if_cases,
}
use fusion_index.Semver.{Semver}
use fusion_index.Db.{Db, DbResult, ok, Version, Tag}
use fusion_index.Db.Artifacts.{get_registry_artifact}
use fusion_index.Db.Versions.{create_artifact_version, next_version, at_semver}
use mathlib.Core.Path.{subst}
use fusion_index.Db.Tags.{find_tag, upsert_artifact_tag}
use fusion_index.Db.Filtered.{semver_of}
use fusion_index.Session.{Fate, World, run, commit}
use fusion_index.Handlers.{◌or◌, internal_error, not_found_or_internal, conflict_or_internal}
use fusion_index.Handlers.Post.{Post, Post-continue, Post-step, Post-step_of, run-Post, commit-Post}
use fusion_index.Handlers.Tags.Put.{upsert-Found}
use fusion_index.Handlers.Tags.Keep.{PointsAt, SameRest, upsert-SameRest, upsert-PointsAt}
use fusion_index.Handlers.Versions.{upsert_tags}

-- The tables have one more version, of the artifact and with the numbers that were asked for; the
-- artifacts and the files are the same.
pub record Adds (a : ℕ) (sv : Semver) (v : Version) (d d' : Db) : Type 0 where
  pub versions : d'.versions ≡ v ∷ d.versions
  pub artifact : v.artifact_id ≡ a
  pub semver : semver_of v ≡ sv
  pub artifacts : d'.artifacts ≡ d.artifacts
  pub files : d'.files ≡ d.files

-- And every tag points at it.
abbrev pub AddsTagged : ℕ → Semver → List Text → Version → Db → Db → Type 0
AddsTagged a sv names v d d' = Adds a sv v d d' × All (PointsAt a v.id d') names

Adds-SameRest :
    (a : ℕ) (sv : Semver) (v : Version) (d d1 d2 : Db)
    → Adds a sv v d d1
    → SameRest d1 d2
    → Adds a sv v d d2
Adds-SameRest a sv v d d1 d2 h s = record {
  versions = s.versions ∙ h.versions;
  artifact = h.artifact;
  semver = h.semver;
  artifacts = s.artifacts ∙ h.artifacts;
  files = s.files ∙ h.files;
}

module _ (a : ℕ) (sv : Semver) (names : List Text) (w : World) where
  pub record Open (u : World) : Type 0 where
    pub restores : u.saved ≡ some w.db
    pub objects : u.objects ≡ w.objects

  pub record Done (v : Version) (u : World) : Type 0 where
    pub closed : u.saved ≡ none
    pub objects : u.objects ≡ w.objects
    pub rows : AddsTagged a sv names v w.db u.db

  -- On the way out with an error: nothing is committed, or all of it.
  abbrev pub Fails : World → Type 0
  Fails u = Open u ⊎ ((v : Version) × Done v u)

  abbrev pub Grown : Version → List Text → World → Type 0
  Grown v ns u = Open u × AddsTagged a sv ns v w.db u.db

  here :
      (d : Db) (i : ℕ) (name : Text) (t : Tag)
      → (find_tag a name d ≡ some t) × (t.version_id ≡ i)
      → PointsAt a i d name
  here d i name t (f, g) = (t, f, g)

  upsert-Grown :
      (v : Version) (done : List Text) (name : Text) (u : World)
      → Grown v done u
      → Post
          (λ _ x. Grown v (name ∷ done) x)
          Fails
          ((run (upsert_artifact_tag a name v.id) or internal_error) u)
  upsert-Grown v done name u (o, (h, k)) =
      run-Post (λ _ x. Grown v (name ∷ done) x) Fails internal_error
        (upsert_artifact_tag a name v.id) u
        (λ fs.
          Post-step_of (λ _ x. Grown v (name ∷ done) x) Fails internal_error _ _
            (λ t answer. (
              record { restores = o.restores; objects = o.objects },
              (
                Adds-SameRest a sv v w.db u.db _ h (upsert-SameRest a name v.id u.now u.db),
                (
                  here _ v.id name t (upsert-Found a name v.id u.now u.db t answer),
                  All-map (λ n p. upsert-PointsAt a name v.id u.now u.db n p) done k,
                ),
              ),
            ))
            (inl (record { restores = o.restores; objects = o.objects })))
        (λ fs. inl (record { restores = o.restores; objects = o.objects }))
        (λ fs. inl (record { restores = o.restores; objects = o.objects }))

  abbrev pub Looped : Version → List Text → List Text → World → Type 0
  Looped v ns done u =
      Open u
      × Adds a sv v w.db u.db
      × All (PointsAt a v.id u.db) ns
      × All (PointsAt a v.id u.db) done

  -- The loop keeps what the earlier tags point at.
  pub upsert_tags-Looped :
      (v : Version) (ns done : List Text) (u : World)
      → Grown v done u
      → Post (λ _ x. Looped v ns done x) Fails (upsert_tags a v.id ns u)
  unfolding upsert_tags
  upsert_tags-Looped v [] done u (o, (h, k)) = (o, h, tt, k)
  upsert_tags-Looped v (n ∷ ns) done u g =
      Post-continue (λ _ x. Grown v (n ∷ done) x) (λ _ x. Looped v (n ∷ ns) done x) Fails _ _
        (upsert-Grown v done n u g)
        (λ t x g1.
          Post-continue (λ _ y. Looped v ns (n ∷ done) y) (λ _ y. Looped v (n ∷ ns) done y) Fails _
            _ (upsert_tags-Looped v ns (n ∷ done) x g1)
            (λ ts y (o, h, later, (here, earlier)). (o, h, (here, later), earlier)))

  answered-Adds : (r v : Version) (d d' : Db) → ok r ≡ ok v → Adds a sv r d d' → Adds a sv v d d'
  answered-Adds r v d d' e h = let same : r ≡ v = cc e in subst (λ x. Adds a sv x d d') same h

  inserted-Adds :
      (config : Option Text) (now : ℕ) (db : Db) (v : Version)
      → (create_artifact_version a sv config now db).0 ≡ ok v
      → Adds a sv v db (create_artifact_version a sv config now db).1
  unfolding create_artifact_version next_version
  inserted-Adds config now db =
      let Q : DbResult Version × Db → Type 0 =
        λ r. (v : Version) → r.0 ≡ ok v → Adds a sv v db r.1 in
      if_cases Q (exists (at_semver a sv) db.versions) _ _ (λ v e. cc)
        (if_cases Q (not (exists (λ x. x.id == a) db.artifacts)) _ _ (λ v e. cc)
          (λ v e. answered-Adds _ v db _ e (record {
            versions = refl;
            artifact = refl;
            semver = refl;
            artifacts = refl;
            files = refl;
          })))

  pub commit-Done :
      (v : Version) (u : World)
      → Grown v names u
      → Post (λ _ x. Done v x) Fails ((commit or internal_error) u)
  commit-Done v u (o, g) =
      commit-Post (λ _ x. Done v x) Fails internal_error u
        (λ fs. record { closed = refl; objects = o.objects; rows = g })
        (λ fs. inl (record { restores = o.restores; objects = o.objects }))
        (λ fs. inr (v, record { closed = refl; objects = o.objects; rows = g }))

  -- The versions and tags that a creation answers with, committed.
  abbrev pub Answer : Version × List Tag → World → Type 0
  Answer r u = Done r.0 u

  pub create-Grown :
      (config : Option Text) (u : World)
      → Open u
      → u.db ≡ w.db
      → Post
          (λ v x. Grown v [] x)
          Fails
          ((run (create_artifact_version a sv config) or conflict_or_internal) u)
  create-Grown config u o e =
      run-Post (λ v x. Grown v [] x) Fails conflict_or_internal
        (create_artifact_version a sv config) u
        (λ fs.
          Post-step_of (λ v x. Grown v [] x) Fails conflict_or_internal _ _
            (λ v answer. (
              again,
              (
                subst (λ d. Adds a sv v d (create_artifact_version a sv config u.now u.db).1) e
                    (inserted-Adds config u.now u.db v answer),
                tt,
              ),
            ))
            (inl again))
        (λ fs. inl (record { restores = o.restores; objects = o.objects }))
        (λ fs. inl (record { restores = o.restores; objects = o.objects }))
    where
      again : {d : Db} {fs : List Fate} → Open (record u { db = d; fates = fs })
      again = record { restores = o.restores; objects = o.objects }

  abbrev pub Began : World → Type 0
  Began u = Open u × (u.db ≡ w.db)

  pub find-Began :
      (u : World)
      → Began u
      → Post (λ _ x. Began x) Fails ((run (get_registry_artifact a) or not_found_or_internal) u)
  unfolding get_registry_artifact
  find-Began u (o, e) =
      run-Post (λ _ x. Began x) Fails not_found_or_internal (get_registry_artifact a) u
        (λ fs.
          Post-step Began Fails not_found_or_internal _ _
            (record { restores = o.restores; objects = o.objects }, e)
            (inl (record { restores = o.restores; objects = o.objects })))
        (λ fs. inl (record { restores = o.restores; objects = o.objects }))
        (λ fs. inl (record { restores = o.restores; objects = o.objects }))
