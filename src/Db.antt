-- ===== src/Db.antt =====
-- The registry's tables: internal/db/sqlc/models.go, with the keys and cascades of migrations
-- 000007, 000008 and 000010. An id is the bit pattern of an int64. A new row stands first.
pub mod Artifacts
pub mod Versions
pub mod Files
pub mod Tags
pub mod Filtered
pub mod Types
pub mod Policies
pub mod Cleanup
pub mod Pages
pub mod Windowed
pub mod Totals
pub mod TagList
pub mod Listed
pub mod Keys
use fusion_index.Prelude.{
  ℕ, ◌+◌, Bool, true, false, ◌&&◌, not, Option, none, some, List, [], ◌∷◌, Text, keep_if, exists,
  ◌==◌,
}

pub record Artifact : Type 0 where
  pub id : ℕ
  pub full_name : Text
  pub description : Option Text
  pub created_at : ℕ
  pub updated_at : ℕ

pub record Version : Type 0 where
  pub id : ℕ
  pub artifact_id : ℕ
  pub major : ℕ
  pub minor : ℕ
  pub patch : ℕ
  pub config : Option Text
  pub created_at : ℕ

-- The three values of the status column.
pub data FileStatus : Type 0 where
  pending available error : FileStatus

pub record File : Type 0 where
  pub id : ℕ
  pub version_id : ℕ
  pub name : Text
  pub content_type : Option Text
  pub size_bytes : Option ℕ
  pub storage_backend : Text
  pub storage_path : Text
  pub status : FileStatus
  pub created_at : ℕ
  pub updated_at : ℕ

pub record Tag : Type 0 where
  pub id : ℕ
  pub artifact_id : ℕ
  pub tag : Text
  pub version_id : ℕ
  pub created_at : ℕ
  pub updated_at : ℕ

-- registry_artifact_type
pub record ArtifactType : Type 0 where
  pub id : ℕ
  pub name : Text
  pub description : Option Text
  pub created_at : ℕ
  pub updated_at : ℕ

-- registry_artifact_type_map
pub record TypeMap : Type 0 where
  pub id : ℕ
  pub artifact_id : ℕ
  pub type_id : ℕ
  pub created_at : ℕ

-- registry_retention_policy, of an artifact or of a type. The int32 fields are at least 1.
pub record RetentionPolicy : Type 0 where
  pub id : ℕ
  pub artifact_id : Option ℕ
  pub type_id : Option ℕ
  pub keep_last : Option ℕ
  pub max_age_days : Option ℕ
  pub created_at : ℕ
  pub updated_at : ℕ

-- The next value of each table's sequence.
pub record Sequences : Type 0 where
  pub artifact : ℕ
  pub version : ℕ
  pub file : ℕ
  pub tag : ℕ
  pub artifact_type : ℕ
  pub type_map : ℕ
  pub policy : ℕ

pub record Db : Type 0 where
  pub artifacts : List Artifact
  pub versions : List Version
  pub files : List File
  pub tags : List Tag
  pub types : List ArtifactType
  pub type_maps : List TypeMap
  pub policies : List RetentionPolicy
  pub sequences : Sequences

-- Sequences are created with INCREMENT BY 50.
abbrev pub increment : ℕ
increment = 50

-- What a statement answers: rows, or one of the errors that the handlers tell apart.
pub data DbError : Type 0 where
  no_rows unique_violation foreign_key_violation unavailable : DbError

pub data DbResult (A : Type 0) : Type 0 where
  ok : A → DbResult A
  err : DbError → DbResult A

-- A statement reads the clock for NOW().
abbrev pub Statement : Type 0 → Type 0
Statement A = ℕ → Db → DbResult A × Db

-- The one row of a `:one` query.
unfoldable pub one_row : {A : Type 0} → Option A → DbResult A
one_row none = err no_rows
one_row (some a) = ok a

-- Whether a version with this id is among those that a condition removes.
unfoldable pub removes_version : (Version → Bool) → Db → ℕ → Bool
removes_version p db id = exists (λ v. v.id == id && p v) db.versions

-- DELETE FROM registry_artifact_version WHERE p, with the cascade to files and tags.
unfoldable pub delete_versions : (Version → Bool) → Db → Db
delete_versions p db = record db {
  versions = keep_if (λ v. not (p v)) db.versions;
  files = keep_if (λ f. not (removes_version p db f.version_id)) db.files;
  tags = keep_if (λ t. not (removes_version p db t.version_id)) db.tags;
}

unfoldable pub removes_artifact : (Artifact → Bool) → Db → ℕ → Bool
removes_artifact p db id = exists (λ a. a.id == id && p a) db.artifacts

-- Whether a nullable reference is to a row that a condition removes.
unfoldable pub refers : (ℕ → Bool) → Option ℕ → Bool
refers gone none = false
refers gone (some id) = gone id

-- DELETE FROM registry_artifact WHERE p, with the cascade to versions, tags, types and policies.
unfoldable pub delete_artifacts : (Artifact → Bool) → Db → Db
unfolding delete_versions
delete_artifacts p db =
    let rest = delete_versions (λ v. removes_artifact p db v.artifact_id) db in
    record rest {
      artifacts = keep_if (λ a. not (p a)) db.artifacts;
      tags = keep_if (λ t. not (removes_artifact p db t.artifact_id)) rest.tags;
      type_maps = keep_if (λ m. not (removes_artifact p db m.artifact_id)) db.type_maps;
      policies = keep_if (λ r. not (refers (removes_artifact p db) r.artifact_id)) db.policies;
    }

unfoldable pub removes_type : (ArtifactType → Bool) → Db → ℕ → Bool
removes_type p db id = exists (λ t. t.id == id && p t) db.types

-- DELETE FROM registry_artifact_type WHERE p, with the cascade to assignments and policies.
unfoldable pub delete_types : (ArtifactType → Bool) → Db → Db
delete_types p db = record db {
  types = keep_if (λ t. not (p t)) db.types;
  type_maps = keep_if (λ m. not (removes_type p db m.type_id)) db.type_maps;
  policies = keep_if (λ r. not (refers (removes_type p db) r.type_id)) db.policies;
}
