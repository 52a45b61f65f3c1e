-- ===== src/Handlers/Tags/Keep.antt =====
-- What a put of one tag leaves of the other tags and tables.
use fusion_index.Prelude.{
  ℕ, ◌≡◌, refl, not, ◌&&◌, some, List, ◌∷◌, Text, arith, find, find-map, exists, ◌==◌, if_cases,
}
use fusion_index.Db.{Db, Tag, DbResult}
use fusion_index.Db.Tags.{carries, find_tag, move_tag, next_tag, upsert_artifact_tag}

-- The tag of the artifact is there and points at the version.
abbrev pub PointsAt : ℕ → ℕ → Db → Text → Type 0
PointsAt a i db name = (t : Tag) × (find_tag a name db ≡ some t) × (t.version_id ≡ i)

-- The other tables are the same.
pub record SameRest (d d' : Db) : Type 0 where
  pub artifacts : d'.artifacts ≡ d.artifacts
  pub versions : d'.versions ≡ d.versions
  pub files : d'.files ≡ d.files

module _ (a : ℕ) (tag : Text) (i now : ℕ) (db : Db) where
  pub upsert-SameRest : SameRest db (upsert_artifact_tag a tag i now db).1
  unfolding upsert_artifact_tag next_tag
  upsert-SameRest =
      if_cases (λ (r : DbResult Tag × Db). SameRest db r.1)
        (not (exists (λ x. x.id == a) db.artifacts && exists (λ v. v.id == i) db.versions)) _ _
        (record { artifacts = refl; versions = refl; files = refl })
        (if_cases (λ (r : DbResult Tag × Db). SameRest db r.1) (exists (carries a tag) db.tags) _ _
          (record { artifacts = refl; versions = refl; files = refl })
          (record { artifacts = refl; versions = refl; files = refl }))

  moved-version : (t : Tag) → t.version_id ≡ i → (move_tag a tag i now t).version_id ≡ i
  unfolding move_tag
  moved-version t e = ground (arith, e)

  moved-carries :
      (name : Text) (t : Tag) → carries a name (move_tag a tag i now t) ≡ carries a name t
  unfolding move_tag carries
  moved-carries name t = ground arith

  added-PointsAt :
      (name : Text) (r : Tag) (ts : List Tag)
      → r.version_id ≡ i
      → ((t : Tag) × (find (carries a name) ts ≡ some t) × (t.version_id ≡ i))
      → (t : Tag) × (find (carries a name) (r ∷ ts) ≡ some t) × (t.version_id ≡ i)
  unfolding find
  added-PointsAt name r ts e (t, f, g) =
      if_cases (λ o. (x : Tag) × (o ≡ some x) × (x.version_id ≡ i)) (carries a name r) _ _
        (r, refl, e) (t, f, g)

  -- A tag that points at the version still does after another tag is pointed there.
  pub upsert-PointsAt :
      (name : Text)
      → PointsAt a i db name
      → PointsAt a i (upsert_artifact_tag a tag i now db).1 name
  unfolding upsert_artifact_tag next_tag find_tag
  upsert-PointsAt name (t, f, g) =
      let Q : DbResult Tag × Db → Type 0 = λ r. PointsAt a i r.1 name in
      if_cases Q (not (exists (λ x. x.id == a) db.artifacts && exists (λ v. v.id == i) db.versions))
        _ _ (t, f, g)
        (if_cases Q (exists (carries a tag) db.tags) _ _
          (
            move_tag a tag i now t,
            find-map (carries a name) (move_tag a tag i now) db.tags t (moved-carries name) f,
            moved-version t g,
          )
          (added-PointsAt name _ db.tags refl (t, f, g)))
