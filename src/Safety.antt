-- ===== src/Safety.antt =====
-- The invariant that ties the file table to storage: an AVAILABLE row points at an object, under a
-- path that is the row's own. internal/api/handlers/{files,version_bulk,artifacts}.go keep it.
pub mod Bulk
pub mod Files
pub mod Artifacts
pub mod Download
pub mod Listed
pub mod Upload
pub mod Uploads
pub mod Admin
use fusion_index.Prelude.{
  ℕ, ◌<◌, ◌≡◌, ◌≢◌, refl, sym, ◌∙◌, ap, Bool, true, false, not, ◌&&◌, Option, none, some, is_some,
  List, [], ◌∷◌, map, Text, arith, All, All-map, All-keep_if, keep_if, find, exists, find-keep_if,
  find_holds, ◌==◌, ==_iff,
}
use mathlib.Core.Path.{subst}
use mathlib.Core.Bool.{false≢true}
use fusion_index.Semver.{Semver}
use fusion_index.Db.{
  Db, Version, File, FileStatus, pending, available, error, removes_version, delete_versions,
}
use fusion_index.Db.Files.{find_file}
use fusion_index.Session.{Object, World, find_object}
use fusion_index.Handlers.{object_path, file_object_path, file_storage_path}
use fusion_index.Handlers.Paths.{Owns, Owns-injective}

-- The row is the one that its id finds, its id has been drawn from the sequence, and if it is
-- AVAILABLE its path is its own and holds an object.
pub record IsFileSafe (db : Db) (os : List Object) (f : File) : Type 0 where
  pub keyed : find_file f.id db ≡ some f
  pub drawn : f.id < db.sequences.file
  pub owned : f.status ≡ available → Owns f.id f.storage_path
  pub backed : f.status ≡ available → is_some (find_object f.storage_path os) ≡ true

abbrev pub IsSafe : Db → List Object → Type 0
IsSafe db os = All (IsFileSafe db os) db.files

-- No transaction is open, and the tables agree with storage.
pub record IsSafeWorld (w : World) : Type 0 where
  pub idle : w.saved ≡ none
  pub safe : IsSafe w.db w.objects

-- The path at which a delete looks for a file's object is the file's own.
object_path-Owns :
    (status : FileStatus) (f : File) (a : ℕ) (sv : Semver)
    → (status ≡ available → Owns f.id f.storage_path)
    → Owns f.id (object_path status f a sv)
unfolding object_path
object_path-Owns available f a sv h = h refl
object_path-Owns pending f a sv h = (a, sv, f.name, refl)
object_path-Owns error f a sv h = (a, sv, f.name, refl)

pub file_object_path-Owns :
    {db : Db} {os : List Object} (f : File) (a : ℕ) (sv : Semver)
    → IsFileSafe db os f
    → Owns f.id (file_object_path f a sv)
unfolding file_object_path
file_object_path-Owns f a sv s = object_path-Owns f.status f a sv s.owned

not-true_of : (b : Bool) → not b ≡ true → b ≡ false
not-true_of true h = cc
not-true_of false h = refl

-- A cascade keeps the rows that it leaves safe.
pub delete_versions-IsSafe :
    (p : Version → Bool) (db : Db) (os : List Object)
    → IsSafe db os
    → All
        (λ f.
          IsFileSafe (delete_versions p db) os f
          × IsFileSafe db os f
          × (removes_version p db f.version_id ≡ false))
        (delete_versions p db).files
unfolding delete_versions find_file
delete_versions-IsSafe p db os h =
    All-keep_if (λ f. not (removes_version p db f.version_id))
      (λ f s kept. (
        record {
          keyed =
              find-keep_if _ (λ g. not (removes_version p db g.version_id)) db.files f s.keyed kept;
          drawn = s.drawn;
          owned = s.owned;
          backed = s.backed;
        },
        s,
        not-true_of _ kept,
      ))
      db.files h

-- Objects that no AVAILABLE row points at may go.
pub IsFileSafe-objects :
    (db : Db) (os os' : List Object) (f : File)
    → (f.status ≡ available → find_object f.storage_path os' ≡ find_object f.storage_path os)
    → IsFileSafe db os f
    → IsFileSafe db os' f
IsFileSafe-objects db os os' f e s = record {
  keyed = s.keyed;
  drawn = s.drawn;
  owned = s.owned;
  backed = λ a. ap is_some (e a) ∙ s.backed a;
}

-- A path that belongs to a file of a version that is going.
abbrev pub Doomed : (Version → Bool) → Db → Text → Type 0
Doomed q db p =
    (g : File) × Owns g.id p
    × (find_file g.id db ≡ some g)
    × (removes_version q db g.version_id ≡ true)

-- Such a path is not that of an AVAILABLE row of a version that stays.
pub Doomed-ne :
    (q : Version → Bool) (db : Db) (os : List Object) (f : File) (p : Text)
    → find_file f.id db ≡ some f
    → Owns f.id f.storage_path
    → removes_version q db f.version_id ≡ false
    → Doomed q db p
    → p ≢ f.storage_path
Doomed-ne q db os f p key own kept (g, owns, found, gone) same =
    let ids = Owns-injective g.id f.id f.storage_path (subst (Owns g.id) same owns) own in
    let row : g ≡ f = cc (sym found ∙ ap (λ i. find_file i db) ids ∙ key) in
    false≢true (sym kept ∙ ap (λ h. removes_version q db h.version_id) (sym row) ∙ gone)
