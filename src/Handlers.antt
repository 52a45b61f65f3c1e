-- ===== src/Handlers.antt =====
-- What the request handlers of internal/api/handlers share: helpers.go, and the way in which a
-- handler ends early with a status.
pub mod Params
pub mod Paths
pub mod Post
pub mod Transaction
pub mod Files
pub mod Versions
pub mod Artifacts
pub mod Tags
pub mod Windowed
pub mod Bulk
pub mod Admin
pub mod Types
pub mod Retention
use fusion_index.Prelude.{
  ℕ, zero, suc, ◌+◌, ◌-◌, ◌^◌, ◌≡◌, refl, Bool, true, false, Option, none, some, List, [], ◌∷◌,
  ◌++◌, Text, if◌then◌else◌,
}
use fusion_index.Strconv.{print}
use fusion_index.Semver.{Semver}
use fusion_index.Db.{
  DbError, no_rows, unique_violation, foreign_key_violation, unavailable, DbResult, ok, err, File,
  FileStatus, pending, available, error,
}
use fusion_index.Session.{World, Call, rollback}

-- A handler goes on with a value, or has answered with an HTTP status.
pub data Step (A : Type 0) : Type 0 where
  next : A → Step A
  failed : ℕ → Step A

abbrev pub Handler : Type 0 → Type 0
Handler A = World → Step A × World

abbrev pub continue : {A B : Type 0} → Step A × World → (A → Handler B) → Step B × World
continue (next a, w) f = f a w
continue (failed code, w) f = (failed code, w)

infixl 5 ◌>>=◌ ◌>>◌
abbrev pub ◌>>=◌ : {A B : Type 0} → Handler A → (A → Handler B) → Handler B
◌>>=◌ m f w = continue (m w) f

abbrev pub ◌>>◌ : {B : Type 0} → Handler (Unit {0}) → Handler B → Handler B
m >> k = m >>= λ _. k

abbrev pub pure : {A : Type 0} → A → Handler A
pure a w = (next a, w)

abbrev pub fail : {A : Type 0} → ℕ → Handler A
fail code w = (failed code, w)

-- An action that has no error to report.
abbrev pub do_always : (World → World) → Handler (Unit {0})
do_always f w = (next tt, f w)

abbrev pub require : {A : Type 0} → ℕ → Option A → Handler A
require code none = fail code
require code (some a) = pure a

-- The statuses of internalError, notFoundOrInternal and isUniqueViolation followed by internalError.
unfoldable pub internal_error : DbError → ℕ
internal_error e = 500

unfoldable pub not_found_or_internal : DbError → ℕ
not_found_or_internal no_rows = 404
not_found_or_internal _ = 500

unfoldable pub conflict_or_internal : DbError → ℕ
conflict_or_internal unique_violation = 409
conflict_or_internal _ = 500

abbrev pub step_of : {A : Type 0} → (DbError → ℕ) → DbResult A → Step A
step_of status (ok a) = next a
step_of status (err e) = failed (status e)

-- A call whose error ends the handler with a status.
infix 6 ◌or◌
abbrev pub ◌or◌ : {A : Type 0} → Call A → (DbError → ℕ) → Handler A
◌or◌ call status w = let (r, w') = call w in (step_of status r, w')

-- defer tx.Rollback(c)
abbrev pub deferring_rollback : {A : Type 0} → Handler A → Handler A
deferring_rollback body w = let (r, w') = body w in (r, rollback w')

-- fileStoragePath
unfoldable pub file_storage_path : ℕ → Semver → ℕ → Text → Text
file_storage_path artifact_id sv file_id name =
    print artifact_id
    ++ (b'/'
        ∷ (print sv.major
            ++ (b'/'
                ∷ (print sv.minor
                    ++ (b'/' ∷ (print sv.patch ++ (b'/' ∷ (print file_id ++ (b'/' ∷ name)))))))))

-- fileObjectPath
unfoldable pub object_path : FileStatus → File → ℕ → Semver → Text
unfolding file_storage_path
object_path available f artifact_id sv = f.storage_path
object_path _ f artifact_id sv = file_storage_path artifact_id sv f.id f.name

unfoldable pub file_object_path : File → ℕ → Semver → Text
unfolding object_path
file_object_path f artifact_id sv = object_path f.status f artifact_id sv
