-- ===== src/Backup/Whole.antt =====
-- cmd/server/backup.go: when a backup succeeds, and what it leaves in the bucket.
use fusion_index.Prelude.{
  ◌≡◌, ◌↔◌, ◌⊎◌, inl, inr, refl, Bool, true, false, ◌||◌, not, List, Text, codes, text_eq,
  Bool-cases, arith,
}
use fusion_index.Config.{Config}
use fusion_index.Session.{Object, put_object}
use fusion_index.Backup.Command.{
  backup_key, UploadFate, completed, unanswered, rejected, given_up, upload_stream, BackupCalls,
  BackupEnd, succeeded, pipe_of, await_dump, finish_backup, run_backup_db,
}

module _ (join : Text → Text → Text) (cfg : Config) (c : BackupCalls) where
  abbrev key : Text
  key = backup_key join cfg c.now

  -- The bucket with the compressed output of pg_dump as the object of the key.
  abbrev with_dump : List Object → List Object
  with_dump objects = put_object key (c.gzip c.dump.text) objects

  -- pg_dump and gzip have ended without an error, the upload is completed, and the object is the whole dump.
  pub record IsBackedUp (objects after : List Object) : Type 0 where
    pub on_s3 : text_eq cfg.storage_backend (codes "S3") ≡ true
    pub client : c.has_client ≡ true
    pub whole : c.dump.broken ≡ false
    pub closes : c.gzip_closes ≡ true
    pub answered : c.upload ≡ completed
    pub stored : after ≡ with_dump objects

  -- The bucket is as it was, or has the object of a dump that is whole.
  abbrev pub IsWhole : List Object → List Object → Type 0
  IsWhole objects after =
      (after ≡ objects)
      ⊎ ((c.dump.broken ≡ false) × (c.gzip_closes ≡ true) × (after ≡ with_dump objects))

  module _ (fate : UploadFate) (text : Text) (broken : Bool) (objects : List Object) where
    abbrev finished : BackupEnd × List Object
    finished = finish_backup fate key (record { text = text; broken = broken }) objects

  completed_whole :
      (fate : UploadFate) (text : Text) (broken : Bool) (objects after : List Object)
      → finished fate text broken objects ≡ (succeeded, after)
      → (fate ≡ completed) × (broken ≡ false) × (after ≡ put_object key text objects)
  unfolding finish_backup await_dump upload_stream
  completed_whole completed text true objects after h = cc h
  completed_whole completed text false objects after h = (refl, refl, cc h)
  completed_whole unanswered text true objects after h = cc h
  completed_whole unanswered text false objects after h = cc h
  completed_whole rejected text true objects after h = cc h
  completed_whole rejected text false objects after h = cc h
  completed_whole given_up text broken objects after h = cc h

  finish_whole :
      (fate : UploadFate) (text : Text) (broken : Bool) (objects : List Object)
      → ((finished fate text broken objects).1 ≡ objects)
        ⊎ ((broken ≡ false) × ((finished fate text broken objects).1 ≡ put_object key text objects))
  unfolding finish_backup upload_stream
  finish_whole fate text true objects = inl refl
  finish_whole completed text false objects = inr (refl, refl)
  finish_whole unanswered text false objects = inr (refl, refl)
  finish_whole rejected text false objects = inl refl
  finish_whole given_up text false objects = inl refl

  succeeded-IsBackedUp :
      (objects after : List Object)
      → run_backup_db join cfg c objects ≡ (succeeded, after)
      → IsBackedUp objects after
  unfolding run_backup_db pipe_of
  succeeded-IsBackedUp objects after h =
      elim (Bool-cases (text_eq cfg.storage_backend (codes "S3"))) [
        | inl here ↦ elim (Bool-cases c.has_client) [
          | inl client ↦
              let (ends, sound, same) =
                completed_whole c.upload (c.gzip c.dump.text) (c.dump.broken || not c.gzip_closes)
                  objects after (rw (here, client) at h) in
              record {
                on_s3 = here;
                client = client;
                whole = ground (arith, sound);
                closes = ground (arith, sound);
                answered = ends;
                stored = same;
              }
          | inr off ↦ cc (rw (here, off) at h)
        ]
        | inr elsewhere ↦ cc (rw elsewhere at h)
      ]

  IsBackedUp-succeeded :
      (objects after : List Object)
      → IsBackedUp objects after
      → run_backup_db join cfg c objects ≡ (succeeded, after)
  unfolding run_backup_db pipe_of finish_backup upload_stream await_dump
  IsBackedUp-succeeded objects after b =
      rw (b.on_s3, b.client, b.whole, b.closes, b.answered, b.stored) refl

  run_backup_db-IsWhole :
      (objects : List Object) → IsWhole objects (run_backup_db join cfg c objects).1
  unfolding run_backup_db pipe_of
  run_backup_db-IsWhole objects = elim (Bool-cases (text_eq cfg.storage_backend (codes "S3"))) [
    | inl here ↦ elim (Bool-cases c.has_client) [
      | inl client ↦
          rw (here, client)
            (elim (finish_whole c.upload (c.gzip c.dump.text) (c.dump.broken || not c.gzip_closes)
              objects) [
                | inl same ↦ inl same
                | inr (sound, stored) ↦ inr (ground (arith, sound), ground (arith, sound), stored)
              ])
      | inr off ↦ rw (here, off) (inl refl)
    ]
    | inr elsewhere ↦ rw elsewhere (inl refl)
  ]

  -- A backup succeeds exactly if the storage is S3, the client is built, pg_dump and gzip end without an error
  -- and the upload is completed, and then the object of its key is the whole dump; and however it ends, the
  -- bucket is as it was, or pg_dump and gzip have ended without an error and the object of the key is the
  -- whole dump.
  pub run_backup_db-IsBackedUp :
      (objects after : List Object)
      → ((run_backup_db join cfg c objects ≡ (succeeded, after)) ↔ IsBackedUp objects after)
        × IsWhole objects (run_backup_db join cfg c objects).1
  run_backup_db-IsBackedUp objects after = (
    (succeeded-IsBackedUp objects after, IsBackedUp-succeeded objects after),
    run_backup_db-IsWhole objects,
  )
