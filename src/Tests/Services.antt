-- ===== src/Tests/Services.antt =====
-- Authentication, configuration, the copy of objects and the metrics at small inputs.
use fusion_index.Prelude.{
  Bool, false, ◌==◌, ◌&&◌, if◌then◌else◌, ℕ, ◌≡◌, ◌↔◌, refl, Bool, true, none, some, is_some, List,
  [], ◌∷◌, ◌++◌, Text, codes, All, join_from, text_eq, find,
}
use fusion_index.Session.{Fate, served, refused, lost, Object, find_object}
use fusion_index.Config.{Config}
use fusion_index.Auth.{Cluster, passed, authenticate}
use fusion_index.Auth.Decision.{Admitted, authenticate-Admitted}
use fusion_index.Migration.{done, trim, join_prefix, trim_left, trim_right, migrate_prefix}
use fusion_index.Migration.Copies.{Apart, Complete}
use fusion_index.Migration.Resume.{
  key_under, run_all, migrate_prefix-Complete, HasMoved, run_all-HasMoved,
}
use fusion_index.Metrics.Sums.{Adds, load_totals-Adds}
use fusion_index.Tests.Registry.{calm_world}

abbrev pub untrimmed : Text → Text
untrimmed s = s

abbrev pub config : Config
config = record {
  port = codes "8080";
  db_host = [];
  db_port = [];
  db_name = [];
  db_user = [];
  db_password = [];
  db_ssl_mode = [];
  storage_backend = [];
  storage_fs_root = [];
  s3_bucket = [];
  s3_prefix = [];
  s3_backup_prefix = [];
  aws_region = [];
  s3_endpoint_override = [];
  auth_enabled = true;
  auth_audience = [];
  auth_allowed_sas = codes "a/x" ∷ [];
  log_level = [];
  log_format = [];
  admin_protected_tag = [];
  metrics_cache_ttl = 60;
}

-- A cluster that knows every token as that of the account a/x.
abbrev pub account : Text
account = join_from b':' (codes "system") (codes "serviceaccount" ∷ codes "a" ∷ codes "x" ∷ [])

abbrev pub cluster : Cluster
cluster = record {
  own_token = some (codes "own");
  call = λ own spec. some (record {
    status_code = 201;
    status = some (record { authenticated = true; username = account });
  });
}

abbrev pub header : Text
header = codes "Bearer abc"

authenticate-Admitted_example :
    (authenticate config cluster header ≡ passed (some account))
    ↔ ((u : Text) × (some account ≡ some u) × Admitted config cluster header u)
authenticate-Admitted_example = authenticate-Admitted config cluster header (some account) refl

-- Objects move from the root of the bucket to a prefix. The first run loses the answer of its second
-- copy.
abbrev collapse : Bool → Text → Text
collapse after_slash [] = []
collapse after_slash (c ∷ s) =
    let rest = collapse (c == b'/') s in if after_slash && c == b'/' then rest else c ∷ rest

-- A join that leaves one slash of several.
abbrev pub with_slash : Text → Text → Text
with_slash prefix path = collapse false (prefix ++ (b'/' ∷ path))

abbrev index : Text
index = codes "index"

abbrev paths : List Text
paths = codes "1/a" ∷ codes "2/b" ∷ []

abbrev start : List Object
start =
    record { path = codes "1/a"; content = codes "A" }
    ∷ record { path = codes "2/b"; content = codes "B" }
    ∷ []

abbrev runs : List (List Fate)
runs = (served ∷ served ∷ served ∷ lost 0 ∷ []) ∷ (refused ∷ refused ∷ []) ∷ []

same_tail : (c d : ℕ) (s t : Text) → c ∷ s ≡ d ∷ t → s ≡ t
same_tail c d s t e = cc e

apart : Apart (key_under with_slash []) (key_under with_slash index) paths
unfolding trim join_prefix trim_left trim_right
apart = (
  ((λ e. cc, λ e. refl), ((λ e. cc, λ e. cc), tt)),
  (((λ e. cc, λ e. cc), ((λ e. cc, λ e. refl), tt)), tt),
)

none_there : All (λ q. find_object (key_under with_slash index q) start ≡ none) paths
unfolding trim join_prefix trim_left trim_right find_object find text_eq
none_there = (refl, (refl, tt))

present : All (λ q. is_some (find_object (key_under with_slash [] q) start) ≡ true) paths
unfolding trim join_prefix trim_left trim_right find_object find text_eq
present = (refl, (refl, tt))

run_all-HasMoved_example :
    (let r =
        migrate_prefix with_slash [] index paths
          (record { objects = run_all with_slash [] index paths runs start; fates = [] }) in
      ((copied : ℕ) × (skipped : ℕ) × (r.0 ≡ done copied skipped))
      × All
          (HasMoved (key_under with_slash []) (key_under with_slash index) start r.1.objects)
          paths)
run_all-HasMoved_example =
    run_all-HasMoved with_slash [] index paths runs start apart none_there present

migrate_prefix-Complete_example :
    Complete
      (key_under with_slash [])
      (key_under with_slash index)
      paths
      2
      (migrate_prefix with_slash [] index paths (record { objects = start; fates = [] }))
migrate_prefix-Complete_example =
    migrate_prefix-Complete with_slash [] index paths (record { objects = start; fates = [] })

abbrev no_order : Text → Text → Bool
no_order s t = true

load_totals-Adds_example : Adds no_order calm_world
load_totals-Adds_example = load_totals-Adds no_order calm_world refl
