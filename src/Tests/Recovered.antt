-- ===== src/Tests/Recovered.antt =====
-- A restore after a backup, in a bucket that has an older backup.
use fusion_index.Prelude.{
  ◌↔◌, ◌≡◌, inl, inr, Bool-cases, text_eq_iff, text_eq_refl, refl, true, false, Option, none, some,
  List, [], ◌∷◌, ◌++◌, Text, codes, arith, All, map, exists, text_eq, has_prefix, find, keep_if,
}
use mathlib.Core.Option
use fusion_index.Config.{Config}
use fusion_index.Session.{Object, served, find_object, put_object}
use fusion_index.Backup.{KeyPage}
use fusion_index.Backup.Latest.{PageIs, is_key, on_page}
use fusion_index.Backup.Restore.{Reader, Services, strip_incompatible_settings, run_restore_db}
use fusion_index.Backup.Command.{
  Moment, stamp, backup_filename, backup_key, completed, upload_stream, BackupCalls, succeeded,
  pipe_of, await_dump, finish_backup, run_backup_db,
}
use fusion_index.Backup.Whole.{IsBackedUp, IsWhole, run_backup_db-IsBackedUp}
use fusion_index.Backup.Order.{IsMoment}
use fusion_index.Backup.Recovery.{IsKeyUntil, IsServing, backup-restore}
use fusion_index.Tests.Services.{config}
use fusion_index.Tests.Restores.{dump, no_env, chomp, restored}

abbrev db_config : Config
db_config = record config { storage_backend = codes "S3"; s3_backup_prefix = codes "db/" }

abbrev joined : Text → Text → Text
joined p s = p ++ s

abbrev january : Moment
january = record { year = 2024; month = 1; day = 31; hour = 23; minute = 59; second = 59 }

abbrev february : Moment
february = record { year = 2024; month = 2; day = 1; hour = 0; minute = 0; second = 0 }

abbrev calls : BackupCalls
calls = record {
  now = february;
  has_client = true;
  dump = dump;
  gzip_closes = true;
  gzip = λ t. t;
  upload = completed;
}

abbrev bucket : List Object
bucket = record { path = backup_key joined db_config january; content = codes "old" } ∷ []

abbrev bucket_after : List Object
bucket_after = put_object (backup_key joined db_config february) dump.text bucket

made : run_backup_db joined db_config calls bucket ≡ (succeeded, bucket_after)
unfolding run_backup_db finish_backup upload_stream await_dump pipe_of text_eq
made = refl

run_backup_db-IsBackedUp_example :
    ((run_backup_db joined db_config calls bucket ≡ (succeeded, bucket_after))
      ↔ IsBackedUp joined db_config calls bucket bucket_after)
    × IsWhole joined db_config calls bucket (run_backup_db joined db_config calls bucket).1
run_backup_db-IsBackedUp_example =
    run_backup_db-IsBackedUp joined db_config calls bucket bucket_after

abbrev listed_path : Object → Option Text
listed_path o = some o.path

abbrev pages_of : List Object → List KeyPage
pages_of os = some (map listed_path os) ∷ []

abbrev s3_services : Services
s3_services = record {
  has_pool = true;
  has_client = true;
  count_fate = served;
  pages = λ prefix. pages_of bucket_after;
  get_object = λ key.
      Option.map (λ (o : Object). record { text = o.content; broken = false })
        (find_object key bucket_after);
  gunzip = λ raw. some raw;
  psql = λ fed target. (true, restored);
}

shown :
    (k : Text) (os : List Object) (o : Object)
    → find_object k os ≡ some o
    → exists (is_key k) (map listed_path os) ≡ true
unfolding find_object find exists
shown k [] o h = cc h
shown k (x ∷ os) o h = elim (Bool-cases (text_eq x.path k)) [
  | inl here ↦ rw ((text_eq_iff x.path k).0 here, text_eq_refl k) refl
  | inr apart ↦ let there = shown k os o (rw apart at h) in ground (arith, there)
]

shown_page :
    (o : Object)
    → find_object o.path bucket_after ≡ some o
    → exists (on_page o.path) (pages_of bucket_after) ≡ true
unfolding exists
shown_page o h = ground (arith, shown o.path bucket_after o h)

s3-IsServing : IsServing db_config (λ t. t) bucket_after s3_services
s3-IsServing = record {
  has_pool = refl;
  has_client = refl;
  counts = refl;
  shows = λ o h under. shown_page o h;
  gives = λ o h. rw h refl;
  unzips = λ t. refl;
}

january-IsMoment : IsMoment january
january-IsMoment = record {
  year = omega arith;
  month = omega arith;
  day = omega arith;
  hour = omega arith;
  minute = omega arith;
  second = omega arith;
}

february-IsMoment : IsMoment february
february-IsMoment = record {
  year = omega arith;
  month = omega arith;
  day = omega arith;
  hour = omega arith;
  minute = omega arith;
  second = omega arith;
}

newest : All (PageIs (IsKeyUntil joined db_config february)) (pages_of bucket_after)
unfolding put_object backup_key backup_filename stamp text_eq keep_if
newest =
    (((february, refl, february-IsMoment, refl), ((january, refl, january-IsMoment, refl), tt)), tt)

joins : (t : Moment) → backup_key joined db_config t ≡ codes "db/" ++ backup_filename t
unfolding backup_key
joins t = refl

under : has_prefix (codes "db/") (backup_key joined db_config february) ≡ true
unfolding has_prefix backup_key
under = refl

backup-restore_example :
    (d : Reader) × (strip_incompatible_settings chomp dump ≡ some d)
    × (run_restore_db chomp db_config no_env s3_services none ≡ s3_services.psql d none)
backup-restore_example =
    backup-restore joined chomp db_config calls no_env s3_services (codes "db/") bucket bucket_after
      made joins under february-IsMoment s3-IsServing newest none refl (inl tt)
