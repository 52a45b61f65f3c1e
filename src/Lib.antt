-- ===== src/Lib.antt =====
-- Verification of fusion-index, a registry of versioned artifacts behind a REST API.
--
-- The program keeps artifacts, versions, files, tags, types and policies in PostgreSQL, and the
-- content of each file as an object in storage, a directory or an S3 bucket. Every request is
-- served by a handler of internal/api/handlers, which parses its parameters, runs SQL statements
-- (internal/db/sqlc), some of them in a transaction, and stores or deletes objects
-- (internal/storage). The tables and storage share no transaction, so the order of the calls
-- and what is undone after a failure decide whether an AVAILABLE row always has its object.
--
-- The files:
--   Prelude, Prelude/*        shared helpers: Boolean tests, lists, rows found by a test, texts
--   Strconv, Strconv/*        the part of Go's strconv that the source uses: ParseInt, Atoi, %d
--   Semver, Semver/*          internal/semver/semver.go: Parse, String
--   Db                        internal/db/sqlc/models.go, the tables with their cascades
--   Db/Artifacts, Db/Versions, Db/Files, Db/Tags
--                             internal/db/sqlc/registry_*.sql.go, a function per statement
--   Db/Types, Db/Policies     the statements on types and on retention policies
--   Db/Listed                 the filtered list of artifacts and its count
--   Db/Cleanup                the statements of the admin clean-ups
--   Db/TagList                the tags of the whole registry
--   Db/Totals                 registry_metrics.sql.go
--   Db/Pages, Db/Windowed     ORDER BY, LIMIT and OFFSET, and the total that rides on the rows
--   Db/Filtered               ListVersionsFiltered, the query that lists and bulk deletes share
--   Db/Keys                   tables whose rows are found by their ids
--   Session, Session/*        a connection, its transaction, storage, and failing calls
--   Handlers                  handlers as programs that end early with a status; helpers.go
--   Handlers/Params, Handlers/Params/*
--                             the path and query parameters of helpers.go, and pages by them
--   Handlers/Paths            the paths that objects are stored under
--   Handlers/Post             rules for what holds after a handler
--   Handlers/Transaction      a transaction followed by deletes of objects
--   Handlers/Files, Handlers/Files/*
--                             internal/api/handlers/files.go
--   Handlers/Versions, Handlers/Versions/*
--                             internal/api/handlers/versions.go
--   Handlers/Artifacts, Handlers/Artifacts/*
--                             internal/api/handlers/artifacts.go
--   Handlers/Tags, Handlers/Tags/*
--                             internal/api/handlers/tags.go
--   Handlers/Windowed, Handlers/Windowed/*
--                             what the lists of versions and of tags share
--   Handlers/Bulk, Handlers/Bulk/*
--                             internal/api/handlers/version_bulk.go
--   Handlers/Admin, Handlers/Admin/*
--                             internal/api/handlers/admin.go
--   Handlers/Types, Handlers/Types/*
--                             internal/api/handlers/types.go
--   Handlers/Retention, Handlers/Retention/*
--                             internal/api/handlers/retention.go: the handlers and the filter
--   Router, Router/*          internal/api/router.go
--   Safety, Safety/*          the invariant between the file table and storage
--   Retention, Retention/*    internal/api/handlers/retention.go: the merge of policies
--   Auth, Auth/*              internal/api/middleware/auth.go
--   Config, Config/*          internal/config/config.go
--   Migration, Migration/*    internal/storage/migrate.go and cmd/server/migrate.go
--   Kubernetes, Kubernetes/*  internal/k8sclient/configmap.go
--   Storage, Storage/*        internal/storage/s3.go and filesystem.go beside the storage of Session
--   Backup, Backup/*          internal/storage/backup.go, cmd/server/backup.go and restore.go
--   Metrics, Metrics/*        internal/api/handlers/metrics.go, internal/metrics/cache.go
--   Tests, Tests/*            the theorems at a small registry
--
-- How the program is modelled:
--   * An id is the bit pattern of an int64, as a natural number; the components of a version are
--     int32 values that are not negative, so they are numbers below 2 ^ 31. Where the source
--     narrows an int to an int32 the wrap-around is written out (Handlers.Params.to_int32).
--   * A text is the list of its bytes. A time is a natural number.
--   * A statement is a function of the clock and the tables. It fails with one of the errors
--     that the handlers tell apart. A column's length limit is not modelled; neither is the
--     order in which the files or tags of one version are listed, on which no handler that is
--     modelled depends.
--   * Every call of the database and of storage draws a fate from a list: it is served,
--     or refused without an effect, or its effect takes place and the answer is lost. Theorems
--     quantify over the lists, so over every pattern of failures. After a list every call is
--     served.
--   * A transaction keeps the tables that a rollback restores. Sequences are not rolled
--     back, and each draw adds 50. Requests run one after another: statements of other requests do
--     not come between those of one handler.
--   * A handler's answer is its status or the value that it renders; messages, logs and the
--     JSON form are left out. A request body that does not bind is `none`.
--   * The columns that triggers maintain, such as total_bytes and version_count, are computed as what
--     migration 000009 says that they hold.
--   * The order of names by the collation of the database, and ILIKE, are parameters. Rows that a
--     list's order leaves open are listed as they stand in the table.
--   * Of Go's libraries, the reading of durations, the trimming of white space, the joining of
--     paths, the encoding of URLs and the formatting of times are parameters, but for the
--     layout of a backup's name; so are the
--     TokenReview API, the token of the pod, gzip, pg_dump, psql, the list of backups and the
--     Kubernetes API.
--   * The cache of the metrics is passed from one request to the next: one refresh runs at a time,
--     as singleflight makes it. Times do not run backwards.
--   * Parsing of RFC 3339 times belongs to Go's library and is a parameter, `parse_time`. Only
--     version_filter-expires assumes of it that it reads back the whole seconds that are formatted.
--   * In the filter of a retention rule a time counts nanoseconds from the zero time; a day is 24 hours, as
--     AddDate makes it in UTC, and the days before the zero time are cut off.
--   * The backends and the prefix migration do not assume that path.Join keeps all texts apart, only those of
--     the paths that a run uses.
--   * The guard of a restore looks at artifacts only, although its comment speaks of any data.
--   * The only recursion on fuel is Strconv.print_fuel: a number n has at most n + 1 digits, and
--     Strconv.print gives that much.
--
-- Not modelled: the matching of paths, logging, the OpenAPI page and the JSON forms, which are wiring and I/O; the
-- clients of AWS and of HTTP, whose calls are parameters or act on the objects of the model; and the rest
-- of the command line, which starts processes.
pub mod Prelude
pub mod Strconv
pub mod Semver
pub mod Db
pub mod Session
pub mod Handlers
pub mod Safety
pub mod Retention
pub mod Backup
pub mod Config
pub mod Auth
pub mod Migration
pub mod Kubernetes
pub mod Metrics
pub mod Router
pub mod Storage
mod Tests
