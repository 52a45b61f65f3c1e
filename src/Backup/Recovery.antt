-- ===== src/Backup/Recovery.antt =====
-- cmd/server/backup.go and cmd/server/restore.go: a restore after a backup.
use fusion_index.Prelude.{
  ◌≡◌, ◌⊎◌, inl, inr, refl, sym, ap, ◌∙◌, Bool, true, false, Option, none, some, List, [], ◌∷◌,
  ◌++◌, Text, codes, has_prefix, exists, All, All-map, length,
}
use mathlib.Core.Option
use fusion_index.Config.{Config}
use fusion_index.Db.{Db, Artifact}
use fusion_index.Session.{Object, find_object, served}
use fusion_index.Session.Objects.{find_object-put_object_self}
use fusion_index.Backup.{find_latest_backup_key}
use fusion_index.Backup.Latest.{PageIs, on_page, find_latest_backup_key-IsLatest, PageIs-map}
use fusion_index.Backup.Restore.{
  Reader, Services, strip_incompatible_settings, run_restore_db, restore_over, open_dump, feed_psql,
  key_or_latest, target_has_data, count_artifacts, counted,
}
use fusion_index.Backup.Stripped.{strip_incompatible_settings-Stripped}
use fusion_index.Backup.Guard.{HasNoArtifacts}
use fusion_index.Backup.Command.{
  Moment, backup_filename, backup_key, BackupCalls, succeeded, run_backup_db,
}
use fusion_index.Backup.Whole.{IsBackedUp, run_backup_db-IsBackedUp}
use fusion_index.Backup.Order.{earlier, IsMoment, backup_key-less}

joined_ne : (b : Text) (t : Moment) → b ++ backup_filename t ≡ [] → ⊥
unfolding backup_filename
joined_ne [] t e = cc e
joined_ne (x ∷ b) t e = cc e

-- What the guard knows of a database that is reached, and that it has no artifacts or is to be overwritten.
guard :
    (Forced : Type 0) (target : Option Db)
    → HasNoArtifacts target ⊎ Forced
    → (has_data : Bool) × (target_has_data (count_artifacts served target) ≡ some has_data)
      × ((has_data ≡ false) ⊎ Forced)
unfolding target_has_data count_artifacts
guard Forced none allowed = (false, refl, inl refl)
guard Forced (some db) (inl empty) = (false, rw empty refl, inl refl)
guard Forced (some db) (inr forced) = rows db.artifacts
  where
    rows :
        (artifacts : List Artifact)
        → (has_data : Bool) × (target_has_data (counted (length artifacts)) ≡ some has_data)
          × ((has_data ≡ false) ⊎ Forced)
    rows [] = (false, refl, inr forced)
    rows (a ∷ artifacts) = (true, refl, inr forced)

-- The key of a backup made at some time, and not after a given one.
abbrev pub IsKeyUntil : (Text → Text → Text) → Config → Moment → Text → Type 0
IsKeyUntil join cfg now key =
    (t : Moment) × (key ≡ backup_key join cfg t) × IsMoment t × (earlier now t ≡ false)

-- What the calls of a restore answer over a bucket: the pages under the prefix are there and show the object of
-- a key with that prefix, an object is downloaded as it is, and gunzip undoes gzip.
pub record IsServing (cfg : Config) (gzip : Text → Text) (objects : List Object) (s : Services)
    : Type 0 where
  pub has_pool : s.has_pool ≡ true
  pub has_client : s.has_client ≡ true
  pub counts : s.count_fate ≡ served
  pub shows :
      (o : Object)
      → find_object o.path objects ≡ some o
      → has_prefix cfg.s3_backup_prefix o.path ≡ true
      → exists (on_page o.path) (s.pages cfg.s3_backup_prefix) ≡ true
  pub gives :
      (o : Object)
      → find_object o.path objects ≡ some o
      → s.get_object o.path ≡ some (record { text = o.content; broken = false })
  pub unzips :
      (t : Text)
      → s.gunzip (record { text = gzip t; broken = false })
        ≡ some (record { text = t; broken = false })

module _ (join : Text → Text → Text) (trim_space : Text → Text) (cfg : Config) (c : BackupCalls)
    (env : Text → Text) (s : Services) (base : Text) (objects after : List Object)
    (made : run_backup_db join cfg c objects ≡ (succeeded, after))
    (joins : (t : Moment) → backup_key join cfg t ≡ base ++ backup_filename t)
    (under : has_prefix cfg.s3_backup_prefix (backup_key join cfg c.now) ≡ true)
    (dated : IsMoment c.now) (serving : IsServing cfg c.gzip after s)
    (newest : All (PageIs (IsKeyUntil join cfg c.now)) (s.pages cfg.s3_backup_prefix)) where
  abbrev key : Text
  key = backup_key join cfg c.now

  abbrev object : Object
  object = record { path = key; content = c.gzip c.dump.text }

  backup : IsBackedUp join cfg c objects after
  backup = (run_backup_db-IsBackedUp join cfg c objects after).0.0 made

  found : find_object key after ≡ some object
  found = rw (backup.stored) (find_object-put_object_self key (c.gzip c.dump.text) objects)

  latest : find_latest_backup_key (s.pages cfg.s3_backup_prefix) ≡ some key
  latest = (find_latest_backup_key-IsLatest (s.pages cfg.s3_backup_prefix) key).1 (record {
    greatest =
        All-map
          (PageIs-map (λ k (t, same, fields, order).
            rw same (backup_key-less join cfg base c.now t joins dated fields ∙ order)))
          (s.pages cfg.s3_backup_prefix) newest;
    there = serving.shows object found under;
    named = λ e. absurd (joined_ne base c.now (sym (joins c.now) ∙ e));
  })

  unbroken : (d : Reader) → d.broken ≡ false → d ≡ record { text = d.text; broken = false }
  unbroken d e = ap (λ b. record { text = d.text; broken = b }) e

  stripped : (dump : Reader) × (strip_incompatible_settings trim_space c.dump ≡ some dump)
  stripped = elim (strip_incompatible_settings-Stripped trim_space c.dump) [
    | inl (failed, broken) ↦ absurd (cc (broken, backup.whole))
    | inr (dump, done, sound, lines, whole) ↦ (dump, done)
  ]

  opened :
      (dump : Reader)
      → strip_incompatible_settings trim_space c.dump ≡ some dump
      → env (codes "RESTORE_BACKUP_KEY") ≡ []
      → open_dump trim_space cfg env s ≡ some dump
  unfolding open_dump key_or_latest Option.bind
  opened dump done unnamed =
      rw (unnamed, latest, serving.gives object found, serving.unzips c.dump.text)
        (ap (strip_incompatible_settings trim_space) (sym (unbroken c.dump backup.whole)) ∙ done)

  -- The guard lets the restore through.
  restored :
      (dump : Reader) (target : Option Db) (has_data : Bool)
      → open_dump trim_space cfg env s ≡ some dump
      → (has_data ≡ false) ⊎ (env (codes "RESTORE_FORCE") ≡ codes "true")
      → restore_over trim_space cfg env s (some has_data) target ≡ s.psql dump target
  unfolding restore_over feed_psql
  restored dump target has_data opens (inl empty) = rw (empty, serving.has_client, opens) refl
  restored dump target false opens (inr forced) = rw (serving.has_client, opens) refl
  restored dump target true opens (inr forced) = rw (forced, serving.has_client, opens) refl

  -- After a backup that has succeeded, a restore that names no key, into a database without artifacts or by
  -- force, feeds psql the whole output of pg_dump, less what is stripped from it; where every key under the
  -- prefix is that of a backup not made later, path.Join puts the same text before each name and keeps the
  -- prefix, and the calls of the restore serve the bucket that the backup leaves.
  pub backup-restore :
      (target : Option Db)
      → env (codes "RESTORE_BACKUP_KEY") ≡ []
      → HasNoArtifacts target ⊎ (env (codes "RESTORE_FORCE") ≡ codes "true")
      → (dump : Reader) × (strip_incompatible_settings trim_space c.dump ≡ some dump)
        × (run_restore_db trim_space cfg env s target ≡ s.psql dump target)
  unfolding run_restore_db
  backup-restore target unnamed allowed =
      let (dump, done) = stripped in
      let (has_data, answer, passes) = guard _ target allowed in
      (
        dump,
        done,
        rw (backup.on_s3, serving.has_pool, serving.counts, answer)
            (restored dump target has_data (opened dump done unnamed) passes),
      )
