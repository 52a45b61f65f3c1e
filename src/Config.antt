-- ===== src/Config.antt =====
-- internal/config/config.go: the configuration from the environment. An environment maps a name to
-- its value, empty where it is not set. Reading of durations, trimming of white space and joining
-- of file paths belong to Go's library and are parameters.
pub mod Lists
use fusion_index.Prelude.{
  ℕ, ◌*◌, Bool, Option, none, some, List, [], ◌∷◌, ◌++◌, Text, codes, split, text_eq, if◌then◌else◌,
}

abbrev pub Environment : Type 0
Environment = Text → Text

pub record Config : Type 0 where
  pub port : Text
  pub db_host : Text
  pub db_port : Text
  pub db_name : Text
  pub db_user : Text
  pub db_password : Text
  pub db_ssl_mode : Text
  pub storage_backend : Text
  pub storage_fs_root : Text
  pub s3_bucket : Text
  pub s3_prefix : Text
  pub s3_backup_prefix : Text
  pub aws_region : Text
  pub s3_endpoint_override : Text
  pub auth_enabled : Bool
  pub auth_audience : Text
  pub auth_allowed_sas : List Text
  pub log_level : Text
  pub log_format : Text
  pub admin_protected_tag : Text
  pub metrics_cache_ttl : ℕ

unfoldable pub or_else : Text → Text → Text
or_else [] fallback = fallback
or_else (c ∷ s) fallback = c ∷ s

-- getEnv
unfoldable pub get_env : Environment → Text → Text → Text
unfolding or_else
get_env env key fallback = or_else (env key) fallback

-- parseDuration, in nanoseconds
unfoldable pub parse_duration : (Text → Option ℕ) → Text → ℕ
parse_duration read s = elim (read s) [ none ↦ 60 * 1000000000 | some d ↦ d ]

unfoldable pub add_trimmed : Text → List Text → List Text
add_trimmed [] rest = rest
add_trimmed (c ∷ s) rest = (c ∷ s) ∷ rest

unfoldable pub trimmed : (Text → Text) → List Text → List Text
unfolding add_trimmed
trimmed trim_space [] = []
trimmed trim_space (p ∷ ps) = add_trimmed (trim_space p) (trimmed trim_space ps)

-- splitCSV
unfoldable pub split_csv : (Text → Text) → Text → List Text
unfolding trimmed split
split_csv trim_space [] = []
split_csv trim_space (c ∷ s) = trimmed trim_space (split b',' (c ∷ s))

-- Load; `artifacts_under` is filepath.Join(home, ".fusion-index", "artifacts").
unfoldable pub load :
    (Text → Option ℕ) → (Text → Text) → (Text → Text) → Text → Environment → Config
unfolding get_env parse_duration split_csv
load read_duration trim_space artifacts_under home env = record {
  port = get_env env (codes "HTTP_PORT") (codes "8080");
  db_host = get_env env (codes "DB_HOST") (codes "localhost");
  db_port = get_env env (codes "DB_PORT") (codes "5432");
  db_name = get_env env (codes "DB_NAME") (codes "fusion_index");
  db_user = get_env env (codes "DB_USERNAME") (codes "fusion");
  db_password = get_env env (codes "DB_PASSWORD") (codes "fusion");
  db_ssl_mode = get_env env (codes "DB_SSLMODE") (codes "disable");
  storage_backend = get_env env (codes "STORAGE_BACKEND") (codes "FILESYSTEM");
  storage_fs_root = get_env env (codes "STORAGE_FS_ROOT") (artifacts_under home);
  s3_bucket = get_env env (codes "S3_BUCKET") (codes "fusion-index-artifacts");
  s3_prefix = get_env env (codes "S3_PREFIX") (codes "index");
  s3_backup_prefix = get_env env (codes "S3_BACKUP_PREFIX") (codes "backups");
  aws_region = get_env env (codes "AWS_REGION") (codes "us-east-1");
  s3_endpoint_override = get_env env (codes "S3_ENDPOINT_OVERRIDE") [];
  auth_enabled = text_eq (get_env env (codes "AUTH_ENABLED") (codes "false")) (codes "true");
  auth_audience = get_env env (codes "AUTH_AUDIENCE") [];
  auth_allowed_sas = split_csv trim_space (get_env env (codes "AUTH_ALLOWED_SA") []);
  log_level = get_env env (codes "LOG_LEVEL") (codes "info");
  log_format = get_env env (codes "LOG_FORMAT") (codes "json");
  admin_protected_tag = get_env env (codes "ADMIN_PROTECTED_TAG") (codes "protect");
  metrics_cache_ttl =
      parse_duration read_duration (get_env env (codes "METRICS_CACHE_TTL") (codes "60s"));
}

-- DBURL
unfoldable pub db_url : Config → Text
db_url c =
    codes "postgresql://"
    ++ c.db_user
    ++ codes ":"
    ++ c.db_password
    ++ codes "@"
    ++ c.db_host
    ++ codes ":"
    ++ c.db_port
    ++ codes "/"
    ++ c.db_name
    ++ codes "?sslmode="
    ++ c.db_ssl_mode
