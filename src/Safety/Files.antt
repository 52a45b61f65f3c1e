-- ===== src/Safety/Files.antt =====
-- The statements on files, and puts and deletes of one file's object, against the invariant.
use fusion_index.Prelude.{
  ℕ, ◌≡◌, ◌≢◌, sym, ◌∙◌, ap, true, false, is_some, List, map, Text, arith, All, All-map, All-of_map,
  All-zip, find, find-map, ◌==◌, Bool-cases, inl, inr,
}
use mathlib.Core.Path.{subst, subst₂}
use fusion_index.Db.{Db, File, FileStatus, pending, available, error}
use fusion_index.Db.Files.{
  CreateArtifactFileParams, new_file, next_file, insert_file, find_file, stored,
  update_artifact_file_stored, with_status, update_artifact_file_status,
}
use fusion_index.Session.{Object, find_object, put_object}
use fusion_index.Session.Objects.{find_object-put_object_ne}
use fusion_index.Handlers.Paths.{Owns, Owns-injective}
use fusion_index.Safety.{IsFileSafe, IsSafe, IsFileSafe-objects}

-- The file with this id is not AVAILABLE.
abbrev pub Unpublished : ℕ → Db → Type 0
Unpublished i db = All (λ f. f.status ≡ available → f.id ≢ i) db.files

-- An update of rows that keeps their ids, and keeps or proves what an AVAILABLE row promises.
map-IsSafe :
    (g : File → File) (db : Db) (os : List Object)
    → ((f : File) → (g f).id ≡ f.id)
    → ((f : File)
        → IsFileSafe db os f
        → (g f).status ≡ available
        → Owns (g f).id (g f).storage_path × (is_some (find_object (g f).storage_path os) ≡ true))
    → IsSafe db os
    → IsSafe (record db { files = map g db.files }) os
unfolding find_file
map-IsSafe g db os same keep h =
    All-of_map (IsFileSafe (record db { files = map g db.files }) os) g db.files (
      All-map
        (λ f s. record {
          keyed =
              ap (λ i. find (λ r. r.id == i) (map g db.files)) (same f)
              ∙ find-map (λ r. r.id == f.id) g db.files f (λ r. ap (λ i. i == f.id) (same r))
                  s.keyed;
          drawn = rw (same f) s.drawn;
          owned = λ a. (keep f s a).0;
          backed = λ a. (keep f s a).1;
        })
        db.files h)

module _ (i now : ℕ) (f : File) where
  with_status_self : (st : FileStatus) → (f.id == i) ≡ true → (with_status i st now f).status ≡ st
  unfolding with_status
  with_status_self st e = ground arith

  with_status_other : (st : FileStatus) → (f.id == i) ≡ false → with_status i st now f ≡ f
  unfolding with_status
  with_status_other st e = ground arith

  with_status-id : (st : FileStatus) → (with_status i st now f).id ≡ f.id
  unfolding with_status
  with_status-id st = ground arith

  stored_self :
      (p : Text) (size : ℕ)
      → (f.id == i) ≡ true
      → ((stored i p size now f).storage_path ≡ p) × ((stored i p size now f).id ≡ i)
  unfolding stored
  stored_self p size e = (ground arith, ground arith)

  stored_other : (p : Text) (size : ℕ) → (f.id == i) ≡ false → stored i p size now f ≡ f
  unfolding stored
  stored_other p size e = ground arith

  pub stored-id : (p : Text) (size : ℕ) → (stored i p size now f).id ≡ f.id
  unfolding stored
  stored-id p size = ground arith

pending-ne-available : pending ≡ available → ⊥
pending-ne-available e = cc

error-ne-available : error ≡ available → ⊥
error-ne-available e = cc

-- What an AVAILABLE row promises of its path.
abbrev Promise : List Object → File → Type 0
Promise os f = Owns f.id f.storage_path × (is_some (find_object f.storage_path os) ≡ true)

module _ (i now : ℕ) (db : Db) (os : List Object) where
  mark_keeps :
      (f : File)
      → IsFileSafe db os f
      → (with_status i error now f).status ≡ available
      → Promise os (with_status i error now f)
  mark_keeps f s a = elim (Bool-cases (f.id == i)) [
    | inl e ↦ absurd (error-ne-available (sym (with_status_self i now f error e) ∙ a))
    | inr e ↦
        let same = with_status_other i now f error e in
        let a' : f.status ≡ available = ap (λ r. r.status) (sym same) ∙ a in
        subst (Promise os) (sym same) (s.owned a', s.backed a')
  ]

  -- Marking a row ERROR breaks no promise.
  pub mark-IsSafe : IsSafe db os → IsSafe (update_artifact_file_status i error now db).1 os
  unfolding update_artifact_file_status
  mark-IsSafe =
      map-IsSafe (with_status i error now) db os (λ f. with_status-id i now f error) mark_keeps

  stored_keeps :
      (p : Text) (size : ℕ)
      → Owns i p
      → is_some (find_object p os) ≡ true
      → (f : File) → IsFileSafe db os f
      → (stored i p size now f).status ≡ available
      → Promise os (stored i p size now f)
  stored_keeps p size own there f s a = elim (Bool-cases (f.id == i)) [
    | inl e ↦
        let (path, id) = stored_self i now f p size e in
        (
          subst₂ Owns (sym id) (sym path) own,
          subst (λ q. is_some (find_object q os) ≡ true) (sym path) there,
        )
    | inr e ↦
        let same = stored_other i now f p size e in
        let a' : f.status ≡ available = ap (λ r. r.status) (sym same) ∙ a in
        subst (Promise os) (sym same) (s.owned a', s.backed a')
  ]

  -- A row may be made AVAILABLE once its object is there, under a path of its own.
  pub stored-IsSafe :
      (p : Text) (size : ℕ)
      → Owns i p
      → is_some (find_object p os) ≡ true
      → IsSafe db os
      → IsSafe (update_artifact_file_stored i p size now db).1 os
  unfolding update_artifact_file_stored
  stored-IsSafe p size own there =
      map-IsSafe (stored i p size now) db os (λ f. stored-id i now f p size)
        (stored_keeps p size own there)

  pub mark-Unpublished :
      Unpublished i db → Unpublished i (update_artifact_file_status i error now db).1
  unfolding update_artifact_file_status
  mark-Unpublished h =
      All-of_map (λ f. f.status ≡ available → f.id ≢ i) (with_status i error now) db.files
        (All-map
          (λ f k a e. elim (Bool-cases (f.id == i)) [
            | inl same ↦ error-ne-available (sym (with_status_self i now f error same) ∙ a)
            | inr other ↦
                k (ap (λ r. r.status) (sym (with_status_other i now f error other)) ∙ a)
                  (sym (with_status-id i now f error) ∙ e)
          ])
          db.files h)

-- The object of a file that is not AVAILABLE may be written and deleted.
module _ (i : ℕ) (p : Text) (db : Db) (os : List Object) (own : Owns i p) where
  elsewhere : (f : File) → Owns f.id f.storage_path → f.id ≢ i → p ≢ f.storage_path
  elsewhere f owns other same =
      other (Owns-injective f.id i f.storage_path owns (subst (Owns i) same own))

  pub any_objects :
      (os' : List Object)
      → ((q : Text) → p ≢ q → find_object q os' ≡ find_object q os)
      → Unpublished i db
      → IsSafe db os
      → IsSafe db os'
  any_objects os' same hidden h =
      All-map
        (λ f (k, s).
          IsFileSafe-objects db os os' f (λ a. same f.storage_path (elsewhere f (s.owned a) (k a)))
            s)
        db.files (All-zip _ (IsFileSafe db os) db.files hidden h)

  pub put-IsSafe : (c : Text) → Unpublished i db → IsSafe db os → IsSafe db (put_object p c os)
  put-IsSafe c = any_objects (put_object p c os) (λ q. find_object-put_object_ne p q c os)

-- A new row is PENDING, and its id is new.
module _ (params : CreateArtifactFileParams) (now : ℕ) (db : Db) (os : List Object) where
  abbrev row : File
  row = new_file params now db

  drawn_later : {f : File} → IsFileSafe db os f → IsFileSafe (next_file db) os f
  unfolding next_file find_file
  drawn_later s = record {
    keyed = s.keyed;
    drawn = omega (arith, s.drawn);
    owned = s.owned;
    backed = s.backed;
  }

  pub next_file-IsSafe : IsSafe db os → IsSafe (next_file db) os
  unfolding next_file
  next_file-IsSafe h = All-map (λ f s. drawn_later s) db.files h

  insert_keeps : (f : File) → IsFileSafe db os f → IsFileSafe (insert_file row db) os f
  unfolding insert_file new_file find_file find
  insert_keeps f s = record {
    keyed = ground (arith, s.keyed, s.drawn);
    drawn = omega (arith, s.drawn);
    owned = s.owned;
    backed = s.backed;
  }

  row-IsFileSafe : IsFileSafe (insert_file row db) os row
  unfolding insert_file new_file find_file find
  row-IsFileSafe = record {
    keyed = ground arith;
    drawn = omega arith;
    owned = λ a. absurd (pending-ne-available a);
    backed = λ a. absurd (pending-ne-available a);
  }

  pub insert-IsSafe : IsSafe db os → IsSafe (insert_file row db) os
  unfolding insert_file
  insert-IsSafe h = (row-IsFileSafe, All-map insert_keeps db.files h)

  pub insert-Unpublished : IsSafe db os → Unpublished row.id (insert_file row db)
  unfolding insert_file new_file
  insert-Unpublished h =
      (λ a _. pending-ne-available a, All-map (λ f s a e. omega (arith, s.drawn, e)) db.files h)
