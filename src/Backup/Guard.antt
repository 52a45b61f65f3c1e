-- ===== src/Backup/Guard.antt =====
-- cmd/server/restore.go: when the restore touches the database, and what it feeds to psql.
use fusion_index.Prelude.{
  ◌≡◌, ◌≢◌, ◌⊎◌, inl, inr, refl, sym, ap, ◌∙◌, Bool, true, false, ◌&&◌, not, Option, none, some,
  List, [], ◌∷◌, Text, codes, text_eq, text_eq_iff, Bool-cases, if_cases,
}
use mathlib.Core.Option
use mathlib.Core.Path.{subst}
use fusion_index.Config.{Config}
use fusion_index.Db.{Db, Artifact}
use fusion_index.Session.{Fate, served, refused, lost}
use fusion_index.Backup.Latest.{IsLatest, find_latest_backup_key-IsLatest}
use fusion_index.Backup.Restore.{
  Reader, concat, Services, count_artifacts, target_has_data, key_or_latest, open_dump, feed_psql,
  restore_over, run_restore_db,
}
use fusion_index.Backup.Stripped.{Stripped, lines_of, strip_incompatible_settings-Stripped}

-- A database without the schema, or without artifacts; types and policies are not looked at.
abbrev pub HasNoArtifacts : Option Db → Type 0
HasNoArtifacts none = Unit
HasNoArtifacts (some db) = db.artifacts ≡ []

no_artifacts :
    (fate : Fate) (target : Option Db)
    → target_has_data (count_artifacts fate target) ≡ some false
    → HasNoArtifacts target
unfolding target_has_data count_artifacts
no_artifacts served none h = tt
no_artifacts served (some db) h = go db.artifacts h
  where
    go :
        (rows : List Artifact)
        → target_has_data (count_artifacts served (some (record db { artifacts = rows })))
          ≡ some false
        → rows ≡ []
    go [] h = refl
    go (a ∷ rows) h = cc
no_artifacts refused target h = cc
no_artifacts (lost n) target h = cc

bind-some :
    {A B : Type 0} (o : Option A) (f : A → Option B) (b : B)
    → Option.bind o f ≡ some b
    → (a : A) × (o ≡ some a) × (f a ≡ some b)
unfolding Option.bind
bind-some none f b h = cc
bind-some (some a) f b h = (a, refl, h)

module _ (trim_space : Text → Text) (cfg : Config) (env : Text → Text) (s : Services) where
  -- The key of the backup: the one that the environment names, or the latest.
  abbrev pub Chosen : Text → Type 0
  Chosen key =
      ((env (codes "RESTORE_BACKUP_KEY") ≡ key) × (key ≢ []))
      ⊎ ((env (codes "RESTORE_BACKUP_KEY") ≡ []) × IsLatest (s.pages cfg.s3_backup_prefix) key)

  -- The dump is the content of the chosen backup, less the setting in its preamble.
  pub record IsDump (dump : Reader) : Type 0 where
    pub key : Text
    pub raw : Reader
    pub plain : Reader
    pub chosen : Chosen key
    pub found : s.get_object key ≡ some raw
    pub unzipped : s.gunzip raw ≡ some plain
    pub stripped : Stripped trim_space (lines_of plain.text) dump.text
    pub whole : plain.text ≡ concat (lines_of plain.text)

  -- The database is that which psql leaves on the dump.
  pub record Restored (target : Option Db) (after : Bool × Option Db) : Type 0 where
    pub dump : Reader
    pub allowed : HasNoArtifacts target ⊎ (env (codes "RESTORE_FORCE") ≡ codes "true")
    pub is_dump : IsDump dump
    pub fed : after ≡ s.psql dump target

  -- The database is left as it is, or restored.
  abbrev Outcome : Option Db → Bool × Option Db → Type 0
  Outcome target after = (after ≡ (false, target)) ⊎ Restored target after

  key-Chosen :
      (named : Text) (key : Text)
      → env (codes "RESTORE_BACKUP_KEY") ≡ named
      → key_or_latest trim_space cfg env s named ≡ some key
      → Chosen key
  unfolding key_or_latest
  key-Chosen [] key e h =
      inr (e, (find_latest_backup_key-IsLatest (s.pages cfg.s3_backup_prefix) key).0 h)
  key-Chosen (c ∷ named) key e h =
      let same : c ∷ named ≡ key = cc h in inl (e ∙ same, λ k. cc (same, k))

  open_dump-IsDump : (dump : Reader) → open_dump trim_space cfg env s ≡ some dump → IsDump dump
  unfolding open_dump
  open_dump-IsDump dump h =
      let (key, chosen, h1) =
        bind-some (key_or_latest trim_space cfg env s (env (codes "RESTORE_BACKUP_KEY"))) _ dump
          h in
      let (raw, found, h2) = bind-some (s.get_object key) _ dump h1 in
      let (plain, unzipped, h3) = bind-some (s.gunzip raw) _ dump h2 in
      elim (strip_incompatible_settings-Stripped trim_space plain) [
        | inl (failed, broken) ↦ absurd (none-ne-some dump (sym failed ∙ h3))
        | inr (r, result, same, stripped, whole) ↦
            let e : r ≡ dump = cc (result, h3) in
            record {
              key = key;
              raw = raw;
              plain = plain;
              chosen = key-Chosen _ key refl chosen;
              found = found;
              unzipped = unzipped;
              stripped =
                  subst (λ t. Stripped trim_space (lines_of plain.text) t)
                    (ap (λ (d : Reader). d.text) e) stripped;
              whole = whole;
            }
      ]
    where
      none-ne-some : (d : Reader) → none ≡ some d → ⊥
      none-ne-some d e = cc

  fed-Restored :
      (target : Option Db)
      → HasNoArtifacts target ⊎ (env (codes "RESTORE_FORCE") ≡ codes "true")
      → (o : Option Reader) → open_dump trim_space cfg env s ≡ o
      → (feed_psql trim_space cfg env s o target ≡ (false, target))
        ⊎ Restored target (feed_psql trim_space cfg env s o target)
  unfolding feed_psql
  fed-Restored target allowed none e = inl refl
  fed-Restored target allowed (some dump) e =
      inr (record { dump = dump; allowed = allowed; is_dump = open_dump-IsDump dump e; fed = refl })

  restore_over-Restored :
      (target : Option Db) (has_data : Option Bool)
      → (has_data ≡ some false → HasNoArtifacts target)
      → (restore_over trim_space cfg env s has_data target ≡ (false, target))
        ⊎ Restored target (restore_over trim_space cfg env s has_data target)
  unfolding restore_over
  restore_over-Restored target none empty = inl refl
  restore_over-Restored target (some has) empty =
      elim (Bool-cases (has && not (text_eq (env (codes "RESTORE_FORCE")) (codes "true")))) [
        | inl blocked ↦ inl (rw blocked refl)
        | inr passed ↦ rw passed (
            if_cases (Outcome target) (not s.has_client) _ _ (inl refl) (
              fed-Restored target (permitted has refl passed) (open_dump trim_space cfg env s)
                refl))
      ]
    where
      permitted :
          (b : Bool)
          → b ≡ has
          → (b && not (text_eq (env (codes "RESTORE_FORCE")) (codes "true"))) ≡ false
          → HasNoArtifacts target ⊎ (env (codes "RESTORE_FORCE") ≡ codes "true")
      permitted false e h = inl (empty (ap some (sym e)))
      permitted true e h =
          elim (Bool-cases (text_eq (env (codes "RESTORE_FORCE")) (codes "true"))) [
            | inl forced ↦ inr ((text_eq_iff _ _).0 forced)
            | inr other ↦ cc (h, other)
          ]

  -- A restore leaves the database as it is and ends with exit status 1, or it leaves what psql makes
  -- of it: then the database has no artifacts, whatever types or policies it has, or RESTORE_FORCE is "true",
  -- and psql reads the content
  -- of the backup that RESTORE_BACKUP_KEY names, or else of the one with the greatest key under the
  -- prefix, less the setting in its preamble.
  pub run_restore_db-Restored :
      (target : Option Db)
      → (run_restore_db trim_space cfg env s target ≡ (false, target))
        ⊎ Restored target (run_restore_db trim_space cfg env s target)
  unfolding run_restore_db
  run_restore_db-Restored target =
      if_cases (Outcome target) (not (text_eq cfg.storage_backend (codes "S3"))) _ _ (inl refl) (
        if_cases (Outcome target) (not s.has_pool) _ _ (inl refl) (
          restore_over-Restored target (target_has_data (count_artifacts s.count_fate target))
            (no_artifacts s.count_fate target)))
