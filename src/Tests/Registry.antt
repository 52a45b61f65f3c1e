-- ===== src/Tests/Registry.antt =====
-- A small registry, and what holds of it.
use fusion_index.Handlers.Files.{UploadForm}
use fusion_index.Db.Versions.{at_semver}
use fusion_index.Safety.Upload.Publish.{IsPublished}
use fusion_index.Prelude.{
  ℕ, ◌≡◌, refl, true, Option, none, some, is_some, [], ◌∷◌, Text, codes, arith, find, text_eq_refl,
}
use fusion_index.Strconv.{pos, parse_int, parse_digits, scan, is_digit, positive_in_range}
use fusion_index.Semver.{Semver, IsInt32}
use fusion_index.Db.{ArtifactType, RetentionPolicy, Db, Artifact, Version, File, available}
use fusion_index.Db.Versions.{find_version}
use fusion_index.Db.Files.{find_file}
use fusion_index.Db.Filtered.{VersionFilter}
use fusion_index.Db.Keys.{IsKeyed}
use fusion_index.Session.{served, refused, Object, World, find_object}
use fusion_index.Handlers.{file_storage_path}
use fusion_index.Handlers.Params.{
  parse_optional_older_than, parse_optional_bool, parse_optional_int64, parse_optional_int32,
  int32_at_least, to_int32,
}
use fusion_index.Handlers.Bulk.{FilterQuery, parse_version_filter}
use fusion_index.Safety.{IsFileSafe, IsSafeWorld}

abbrev pub one_zero : Semver
one_zero = record { major = 1; minor = 0; patch = 0 }

abbrev pub two_zero : Semver
two_zero = record { major = 2; minor = 0; patch = 0 }

abbrev pub two_two : Semver
two_two = record { major = 2; minor = 2; patch = 0 }

pub two_two-IsInt32 : IsInt32 two_two
two_two-IsInt32 = record { major = omega arith; minor = omega arith; patch = omega arith }

pub one_zero-IsInt32 : IsInt32 one_zero
one_zero-IsInt32 = record { major = omega arith; minor = omega arith; patch = omega arith }

abbrev pub version_at : ℕ → ℕ → Semver → Version
version_at id artifact_id sv = record {
  id = id;
  artifact_id = artifact_id;
  major = sv.major;
  minor = sv.minor;
  patch = sv.patch;
  config = none;
  created_at = 10;
}

abbrev pub old : Version
old = version_at 1 1 one_zero

abbrev pub new : Version
new = version_at 51 1 two_zero

abbrev pub foreign : Version
foreign = version_at 101 51 one_zero

abbrev pub path : Text
path = file_storage_path 1 one_zero 1 (codes "a.bin")

abbrev pub file : File
file = record {
  id = 1;
  version_id = 1;
  name = codes "a.bin";
  content_type = none;
  size_bytes = some 2;
  storage_backend = codes "filesystem";
  storage_path = path;
  status = available;
  created_at = 10;
  updated_at = 10;
}

abbrev pub artifact_at : ℕ → Text → Artifact
artifact_at id name = record {
  id = id;
  full_name = name;
  description = none;
  created_at = 10;
  updated_at = 10;
}

abbrev pub type_at : ℕ → Text → ArtifactType
type_at id name = record {
  id = id;
  name = name;
  description = none;
  created_at = 10;
  updated_at = 10;
}

abbrev pub policy : ℕ → Option ℕ → Option ℕ → ℕ → ℕ → RetentionPolicy
policy id artifact_id type_id keep_last max_age_days = record {
  id = id;
  artifact_id = artifact_id;
  type_id = type_id;
  keep_last = some keep_last;
  max_age_days = some max_age_days;
  created_at = 10;
  updated_at = 10;
}

-- Two artifacts, three versions, one file, a tag at the last version, and a type with a policy.
abbrev pub tables : Db
tables = record {
  artifacts = artifact_at 51 (codes "b") ∷ artifact_at 1 (codes "a") ∷ [];
  versions = foreign ∷ new ∷ old ∷ [];
  files = file ∷ [];
  tags =
      record {
        id = 1;
        artifact_id = 51;
        tag = codes "stable";
        version_id = 101;
        created_at = 10;
        updated_at = 10;
      }
      ∷ [];
  types = type_at 1 (codes "model") ∷ [];
  type_maps = record { id = 1; artifact_id = 51; type_id = 1; created_at = 10 } ∷ [];
  policies = policy 1 none (some 1) 5 30 ∷ [];
  sequences = record {
    artifact = 101;
    version = 151;
    file = 51;
    tag = 51;
    artifact_type = 51;
    type_map = 51;
    policy = 51;
  };
}

abbrev pub object : Object
object = record { path = path; content = codes "hi" }

-- The second statement to come is refused, and so is the second call of storage.
abbrev pub world : World
world = record {
  db = tables;
  saved = none;
  objects = object ∷ [];
  now = 20;
  fates = served ∷ served ∷ served ∷ refused ∷ [];
  storage_fates = served ∷ refused ∷ [];
}

pub tables-IsKeyed : IsKeyed tables
unfolding find_version find
tables-IsKeyed = (refl, (refl, (refl, tt)))

pub object_found : is_some (find_object path (object ∷ [])) ≡ true
unfolding find_object find
object_found = rw (text_eq_refl path) refl

pub file-IsFileSafe : IsFileSafe tables (object ∷ []) file
unfolding find_file find_object find
file-IsFileSafe = record {
  keyed = refl;
  drawn = omega arith;
  owned = λ _. (1, one_zero, codes "a.bin", refl);
  backed = λ _. object_found;
}

pub world-IsSafeWorld : IsSafeWorld world
world-IsSafeWorld = record { idle = refl; safe = (file-IsFileSafe, tt) }

abbrev pub no_times : Text → Option ℕ
no_times _ = none

abbrev pub query : Text → FilterQuery
query dry_run = record {
  keep_last = codes "1";
  older_than = [];
  from = [];
  below = [];
  versions = [];
  has_files = [];
  has_incomplete_files = [];
  min_bytes = [];
  max_bytes = [];
  dry_run = dry_run;
}

abbrev pub filter : VersionFilter
filter = record {
  keep_last = some (pos 1);
  older_than = none;
  from = none;
  below = none;
  versions = none;
  has_files = none;
  has_incomplete_files = none;
  min_bytes = none;
  max_bytes = none;
}

pub query-filter :
    (o : Option ℕ) → parse_version_filter no_times (is_some o) (query []) ≡ some filter
unfolding parse_version_filter parse_optional_int32 int32_at_least to_int32 parse_int parse_digits
    scan is_digit positive_in_range parse_optional_older_than parse_optional_bool
    parse_optional_int64
query-filter o = refl

-- The registry with no failing calls.
abbrev pub calm_world : World
calm_world = record world { fates = []; storage_fates = [] }

abbrev pub uploaded : UploadForm
uploaded = record {
  filename = codes "a.bin";
  content = codes "hi";
  header_type = [];
  content_type = [];
}

pub file-IsPublished : IsPublished uploaded file calm_world
unfolding find_file find_object find
file-IsPublished = record {
  safe = record { idle = refl; safe = (file-IsFileSafe, tt) };
  status = refl;
  name = refl;
  size = refl;
  row = refl;
  object = rw (text_eq_refl path) refl;
}

pub old-found : find (at_semver 1 one_zero) tables.versions ≡ some old
unfolding find at_semver
old-found = refl
