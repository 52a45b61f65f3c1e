-- ===== src/Handlers/Tags/Put.antt =====
-- What a put of a tag leaves in the tables.
use fusion_index.Prelude.{
  ℕ, ◌≡◌, refl, sym, ◌∙◌, ap, true, not, ◌&&◌, Option, none, some, List, ◌∷◌, map, Text, arith,
  find, find_holds, exists, text_eq, text_eq_refl, ◌==◌, All-found, All-of_map, All-of_each,
  if_cases,
}
use fusion_index.Semver.{Semver, parse}
use fusion_index.Db.{Db, Version, Tag, DbResult, ok, one_row}
use fusion_index.Db.Versions.{at_semver, get_artifact_version}
use mathlib.Core.Path.{subst}
use fusion_index.Session.{World, run}
use fusion_index.Handlers.{◌>>=◌, ◌or◌, internal_error, not_found_or_internal}
use fusion_index.Handlers.Params.{path_id}
use fusion_index.Handlers.Post.{
  Post, Post-map, Post-continue, Post-require, Post-step_of, Post-step, run-Post,
}
use fusion_index.Handlers.Tags.{put_tag}
use fusion_index.Db.Artifacts.{get_registry_artifact}
use fusion_index.Db.Tags.{carries, find_tag, move_tag, next_tag, upsert_artifact_tag}

one_row-some : {A : Type 0} (o : Option A) (a : A) → one_row o ≡ ok a → o ≡ some a
unfolding one_row
one_row-some none a e = cc
one_row-some (some u) a e = cc

module _ (a : ℕ) (tag : Text) (i now : ℕ) where
  move_tag-carries : (t : Tag) → carries a tag (move_tag a tag i now t) ≡ carries a tag t
  unfolding move_tag carries
  move_tag-carries t = ground arith

  move_tag-points : (t : Tag) → carries a tag t ≡ true → (move_tag a tag i now t).version_id ≡ i
  unfolding move_tag
  move_tag-points t e = ground arith

  -- A row that the statement answers with is the tag's, and points at the version.
  abbrev Found : DbResult Tag × Db → Type 0
  Found r = (t : Tag) → r.0 ≡ ok t → (find_tag a tag r.1 ≡ some t) × (t.version_id ≡ i)

  moved-points :
      (ts : List Tag) (t : Tag)
      → find (carries a tag) (map (move_tag a tag i now) ts) ≡ some t
      → t.version_id ≡ i
  moved-points ts t e =
      All-found (λ u. carries a tag u ≡ true → u.version_id ≡ i) (carries a tag)
        (map (move_tag a tag i now) ts) t e
        (All-of_map (λ u. carries a tag u ≡ true → u.version_id ≡ i) (move_tag a tag i now) ts
          (All-of_each (λ u h. move_tag-points u (sym (move_tag-carries u) ∙ h)) ts))
        (find_holds (carries a tag) (map (move_tag a tag i now) ts) t e)

  added :
      (r : Tag) (ts : List Tag)
      → r.artifact_id ≡ a
      → r.tag ≡ tag
      → r.version_id ≡ i
      → (t : Tag) → ok r ≡ ok t
      → (find (carries a tag) (r ∷ ts) ≡ some t) × (t.version_id ≡ i)
  unfolding find carries
  added r ts ha ht hi t e =
      let same : r ≡ t = cc e in
      let named : text_eq r.tag tag ≡ true = rw ht (text_eq_refl tag) in
      subst (λ x. (find (carries a tag) (r ∷ ts) ≡ some x) × (x.version_id ≡ i)) same
        (ground (arith, ha, named), hi)

  upsert-versions : (db : Db) → (upsert_artifact_tag a tag i now db).1.versions ≡ db.versions
  unfolding upsert_artifact_tag next_tag
  upsert-versions db =
      let Q : DbResult Tag × Db → Type 0 = λ r. r.1.versions ≡ db.versions in
      if_cases Q (not (exists (λ x. x.id == a) db.artifacts && exists (λ v. v.id == i) db.versions))
        _ _ refl (if_cases Q (exists (carries a tag) db.tags) _ _ refl refl)

  pub upsert-Found : (db : Db) → Found (upsert_artifact_tag a tag i now db)
  unfolding upsert_artifact_tag find_tag
  upsert-Found db =
      if_cases Found
        (not (exists (λ x. x.id == a) db.artifacts && exists (λ v. v.id == i) db.versions)) _ _
        (λ t e. cc)
        (if_cases Found (exists (carries a tag) db.tags) _ _
          (λ t e. let f = one_row-some _ t e in (f, moved-points db.tags t f))
          (added _ db.tags refl refl refl))

-- The tag of the artifact is the row, and the row points at the version that was asked for.
pub record Points (raw_id tag raw : Text) (t : Tag) (db : Db) : Type 0 where
  pub artifact_id : ℕ
  pub semver : Semver
  pub version : Version
  pub identified : path_id raw_id ≡ some artifact_id
  pub parsed : parse raw ≡ some semver
  pub found : find (at_semver artifact_id semver) db.versions ≡ some version
  pub current : find_tag artifact_id tag db ≡ some t
  pub target : t.version_id ≡ version.id

module _ (raw_id tag raw : Text) (w : World) where
  abbrev Q : Tag → World → Type 0
  Q t u = Points raw_id tag raw t u.db

  abbrev E : World → Type 0
  E u = u.db.versions ≡ w.db.versions

  upsert-Points :
      (a : ℕ) (sv : Semver) (v : Version) (u : World)
      → path_id raw_id ≡ some a
      → parse raw ≡ some sv
      → E u
      → find (at_semver a sv) w.db.versions ≡ some v
      → Post Q E ((run (upsert_artifact_tag a tag v.id) or internal_error) u)
  upsert-Points a sv v u ha hs e found =
      run-Post Q E internal_error (upsert_artifact_tag a tag v.id) u
        (λ fs.
          let same = upsert-versions a tag v.id u.now u.db ∙ e in
          Post-step_of Q E internal_error _ _
            (λ t answer.
              let (current, target) = upsert-Found a tag v.id u.now u.db t answer in
              record {
                artifact_id = a;
                semver = sv;
                version = v;
                identified = ha;
                parsed = hs;
                found = ap (find (at_semver a sv)) same ∙ found;
                current = current;
                target = target;
              })
            same)
        (λ fs. e) (λ fs. upsert-versions a tag v.id u.now u.db ∙ e)

  look_up-Points :
      (a : ℕ) (sv : Semver) (u : World)
      → path_id raw_id ≡ some a
      → parse raw ≡ some sv
      → E u
      → Post Q E (
          ((run (get_artifact_version a sv) or not_found_or_internal)
              >>= (λ v. run (upsert_artifact_tag a tag v.id) or internal_error))
            u)
  unfolding get_artifact_version
  look_up-Points a sv u ha hs e =
      let Known : Version → World → Type 0 =
        λ v x. E x × (find (at_semver a sv) w.db.versions ≡ some v) in
      Post-continue Known Q E _ _
        (run-Post Known E not_found_or_internal (get_artifact_version a sv) u
          (λ fs.
            Post-step_of Known E not_found_or_internal _ _
              (λ v answer. (e, ap (find (at_semver a sv)) (sym e) ∙ one_row-some _ v answer)) e)
          (λ fs. e) (λ fs. e))
        (λ v x (k, found). upsert-Points a sv v x ha hs k found)

-- Whatever the tables hold and whichever calls fail: if a put of a tag succeeds, the row that it
-- returns is the artifact's tag of that name, and points at the version of the artifact that was
-- asked for. If it fails the versions are as they were.
pub put_tag-Points :
    (raw_id tag : Text) (version : Option Text) (w : World)
    → Post
        (λ t u. (raw : Text) × (version ≡ some raw) × Points raw_id tag raw t u.db)
        (λ u. u.db.versions ≡ w.db.versions)
        (put_tag raw_id tag version w)
unfolding put_tag get_registry_artifact
put_tag-Points raw_id tag version w = Post-require R E 400 (path_id raw_id) _ w refl λ a ha.
    Post-require R E 400 version _ w refl λ raw hv.
      Post-require R E 400 (parse raw) _ w refl λ sv hs.
        Post-map (λ t u. Points raw_id tag raw t u.db) R E _ (λ t u p. (raw, hv, p))
          (Post-continue (λ _ u. E u) (λ t u. Points raw_id tag raw t u.db) E _ _
            (run-Post (λ _ u. E u) E not_found_or_internal (get_registry_artifact a) w
              (λ fs. Post-step E E not_found_or_internal _ _ refl refl) (λ fs. refl) (λ fs. refl))
            (λ _ u e. look_up-Points raw_id tag raw w a sv u ha hs e))
  where
    R : Tag → World → Type 0
    R t u = (raw : Text) × (version ≡ some raw) × Points raw_id tag raw t u.db

    E : World → Type 0
    E u = u.db.versions ≡ w.db.versions
