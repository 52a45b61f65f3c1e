-- ===== src/Backup/Command.antt =====
-- cmd/server/backup.go, with UploadStream of internal/storage/backup.go and the guard of
-- cmd/server/pgexec.go. path.Join, pg_dump and gzip are parameters; the layout of the time is Go's.
use fusion_index.Prelude.{
  ℕ, ◌+◌, ◌/◌, ◌%◌, Bool, true, false, ◌||◌, not, List, [], ◌∷◌, ◌++◌, Text, codes, text_eq,
  if◌then◌else◌,
}
use fusion_index.Config.{Config}
use fusion_index.Session.{Object, put_object}
use fusion_index.Backup.Restore.{Reader}

-- The fields of a time in UTC.
pub record Moment : Type 0 where
  pub year : ℕ
  pub month : ℕ
  pub day : ℕ
  pub hour : ℕ
  pub minute : ℕ
  pub second : ℕ

abbrev pub digit : ℕ → ℕ
digit n = 48 + n % 10

abbrev pub two_digits : ℕ → Text
two_digits n = digit (n / 10) ∷ digit n ∷ []

abbrev pub four_digits : ℕ → Text
four_digits n = two_digits (n / 100) ++ two_digits n

-- Format of the layout 20060102T150405Z, of a year below 10000
unfoldable pub stamp : Moment → Text
stamp t =
    four_digits t.year
    ++ (two_digits t.month
        ++ (two_digits t.day
            ++ (b'T'
                ∷ (two_digits t.hour
                    ++ (two_digits t.minute ++ (two_digits t.second ++ (b'Z' ∷ [])))))))

unfoldable pub backup_filename : Moment → Text
unfolding stamp
backup_filename t = codes "backup-" ++ (stamp t ++ codes ".sql.gz")

unfoldable pub backup_key : (Text → Text → Text) → Config → Moment → Text
unfolding backup_filename
backup_key join cfg t = join cfg.s3_backup_prefix (backup_filename t)

-- What becomes of the upload: it is completed; it is completed and the answer is lost; it fails after the
-- body is read to its end; or it is given up while a write into the pipe still waits for a reader.
pub data UploadFate : Type 0 where
  completed unanswered rejected given_up : UploadFate

-- UploadStream: whether it ends without an error, and the objects. A body that ends in an error is never an
-- object, since the uploader aborts.
unfoldable pub upload_stream : UploadFate → Text → Reader → List Object → Bool × List Object
upload_stream fate key body objects = if body.broken then (false, objects) else elim fate [
  | completed ↦ (true, put_object key body.text objects)
  | unanswered ↦ (false, put_object key body.text objects)
  | rejected ↦ (false, objects)
  | given_up ↦ (false, objects)
]

-- What the command calls: the time, whether the S3 client is built, the output of pg_dump, which is broken
-- if pg_dump fails, whether gzip is closed without an error, and gzip.
pub record BackupCalls : Type 0 where
  pub now : Moment
  pub has_client : Bool
  pub dump : Reader
  pub gzip_closes : Bool
  pub gzip : Text → Text
  pub upload : UploadFate

-- It ends without an error, it ends with exit status 1, or it waits for ever.
pub data BackupEnd : Type 0 where
  succeeded exited hung : BackupEnd

-- The goroutine: the pipe's end for the reader
unfoldable pub pipe_of : BackupCalls → Reader
pipe_of s = record { text = s.gzip s.dump.text; broken = s.dump.broken || not s.gzip_closes }

-- The exit status. The receive of dumpErr waits for the goroutine, and that for a reader of the pipe, which an
-- upload that is given up leaves without one.
unfoldable pub await_dump : UploadFate → Bool → Bool → BackupEnd
await_dump given_up broken uploaded = hung
await_dump _ broken uploaded = if broken then exited else if uploaded then succeeded else exited

-- From the upload on
unfoldable pub finish_backup : UploadFate → Text → Reader → List Object → BackupEnd × List Object
unfolding upload_stream await_dump
finish_backup fate key body objects =
    let (uploaded, after) = upload_stream fate key body objects in
    (await_dump fate body.broken uploaded, after)

module _ (join : Text → Text → Text) (cfg : Config) (s : BackupCalls) where
  -- runBackupDB
  unfoldable pub run_backup_db : List Object → BackupEnd × List Object
  unfolding text_eq backup_key finish_backup pipe_of
  run_backup_db objects =
      if not (text_eq cfg.storage_backend (codes "S3"))
      then (exited, objects)
      else if not s.has_client
      then (exited, objects)
      else finish_backup s.upload (backup_key join cfg s.now) (pipe_of s) objects
