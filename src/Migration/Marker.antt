-- ===== src/Migration/Marker.antt =====
-- cmd/server/migrate.go: the marker and the objects after a run of the command, whatever fails.
use fusion_index.Prelude.{
  ℕ, ◌≡◌, ◌≢◌, ◌⊎◌, inl, inr, refl, sym, ap, ◌∙◌, Bool, true, false, not, Option, none, some,
  is_some, List, Text, All, All-map, All-of_each, All-zip, text_eq, text_eq_iff, Bool-cases,
  if_cases,
}
use mathlib.Core.Bool.{false≢true}
use fusion_index.Config.{Config}
use fusion_index.Db.{Db}
use fusion_index.Session.{Fate, served, refused, lost, Object, find_object}
use fusion_index.Kubernetes.{
  ConfigMap, Api, missing, fetched, create_config_map_data, update_config_map_data,
}
use fusion_index.Kubernetes.Laws.{Holds, IsConfigMapApi, created-Holds, updated-Holds}
use fusion_index.Migration.{Bucket, Migrated, done, stopped, migrate_prefix}
use fusion_index.Migration.Copies.{
  Apart, IsCopied, Complete, copy_paths-IsCopied, copy_paths-Complete, content_of,
}
use fusion_index.Migration.Resume.{key_under}
use fusion_index.Migration.Command.{
  Pod, prefix_of, s3_paths, read_paths, configured, record_prefix, migrate_paths, with_marker,
}

module _ {S : Type 0} (api : Api S) (stored : S → Option ConfigMap) (join : Text → Text → Text)
    (cfg : Config) (pod : Pod) (db : Db) (namespace : Text)
    (laws : IsConfigMapApi api stored namespace pod.marker_name) (s : S) (b : Bucket) where
  -- The marker records the configured prefix.
  abbrev pub IsRecorded : Option ConfigMap → Type 0
  IsRecorded o = (cm : ConfigMap) × (o ≡ some cm) × (prefix_of cm.data_map ≡ cfg.s3_prefix)

  -- The object of a path under the configured prefix is there, with the content of the old one.
  abbrev pub IsMoved : Text → List Object → Text → Type 0
  IsMoved old os q =
      (is_some (find_object (key_under join cfg.s3_prefix q) os) ≡ true)
      × (content_of (find_object (key_under join cfg.s3_prefix q) os)
          ≡ content_of (find_object (key_under join old q) b.objects))

  -- An old object is as it was.
  abbrev pub IsKept : Text → List Object → Text → Type 0
  IsKept old os q =
      find_object (key_under join old q) os ≡ find_object (key_under join old q) b.objects

  -- Where the marker names another prefix, its keys are none of the new ones, different paths have different
  -- new keys, and an object that is there
  -- under a new key has the content of the old one.
  abbrev pub IsReady : Text → Type 0
  IsReady old =
      old ≢ cfg.s3_prefix
      → Apart (key_under join old) (key_under join cfg.s3_prefix) (s3_paths db)
        × All (IsCopied (key_under join old) (key_under join cfg.s3_prefix) b.objects b.objects)
            (s3_paths db)

  -- The marker and the bucket after a run.
  pub record Outcome (r : Bool × S × Bucket) : Type 0 where
    pub marker : (stored r.1 ≡ stored s) ⊎ IsRecorded (stored r.1)
    pub success : r.0 ≡ true → IsRecorded (stored r.1)
    pub kept :
        (cm : ConfigMap)
        → stored s ≡ some cm
        → All (IsKept (prefix_of cm.data_map) r.2.objects) (s3_paths db)
    pub moved :
        (cm : ConfigMap)
        → stored s ≡ some cm
        → (prefix_of cm.data_map ≡ cfg.s3_prefix)
          ⊎ (stored r.1 ≡ stored s)
          ⊎ All (IsMoved (prefix_of cm.data_map) r.2.objects) (s3_paths db)

  -- A run that ends before anything is written.
  pub exit-Outcome : (s' : S) → stored s' ≡ stored s → Outcome (false, s', b)
  exit-Outcome s' e = record {
    marker = inl e;
    success = λ h. cc h;
    kept = λ cm h. All-of_each (λ q. refl) (s3_paths db);
    moved = λ cm h. inr (inl e);
  }

  recorded : (o : Option ConfigMap) → Holds (configured cfg) o → IsRecorded o
  unfolding prefix_of text_eq
  recorded o (cm, there, entries) = (cm, there, ap prefix_of entries)

  pub create-Outcome :
      (token : Text) (s' : S)
      → stored s' ≡ stored s
      → stored s ≡ none
      → Outcome (with_marker api join cfg pod db token namespace missing s' b)
  unfolding with_marker create_config_map_data
  create-Outcome token s' e absent = record {
    marker = elim (laws.creates token (configured cfg) s') [
      | inl same ↦ inl (same ∙ e)
      | inr (_, holds) ↦ inr (recorded _ holds)
    ];
    success =
        λ h. recorded _ (created-Holds api stored token namespace pod.marker_name laws _ s' h);
    kept = λ cm h. All-of_each (λ q. refl) (s3_paths db);
    moved = λ cm h. absurd (none-ne-some cm (sym absent ∙ h));
  }
    where
      none-ne-some : (cm : ConfigMap) → none ≡ some cm → ⊥
      none-ne-some cm h = cc h

  module _ (entries : List (Text × Text)) (holds : Holds entries (stored s)) where
    abbrev old : Text
    old = prefix_of entries

    same_old : (cm : ConfigMap) → stored s ≡ some cm → prefix_of cm.data_map ≡ old
    same_old cm h =
        let (found, there, same) = holds in
        let e : found ≡ cm = cc (sym there ∙ h) in
        ap (λ (c : ConfigMap). prefix_of c.data_map) (sym e) ∙ ap prefix_of same

    abbrev Copied : List Object → Type 0
    Copied os =
        All (IsCopied (key_under join old) (key_under join cfg.s3_prefix) b.objects os)
          (s3_paths db)

    Copied-IsKept : (os : List Object) → Copied os → All (IsKept old os) (s3_paths db)
    Copied-IsKept os h = All-map (λ q k. k.old) (s3_paths db) h

    Copied-IsMoved :
        (os : List Object) (q : Text)
        → IsCopied (key_under join old) (key_under join cfg.s3_prefix) b.objects os q
        → is_some (find_object (key_under join cfg.s3_prefix q) os) ≡ true
        → IsMoved old os q
    Copied-IsMoved os q k there = (
      there,
      elim k.new [
        | inl none_there ↦ absurd (false≢true (sym (ap is_some none_there) ∙ there))
        | inr same ↦ same
      ],
    )

    record_prefix-Outcome :
        (token version : Text) (n : ℕ) (r : Migrated × Bucket) (s' : S)
        → stored s' ≡ stored s
        → Copied r.1.objects
        → Complete (key_under join old) (key_under join cfg.s3_prefix) (s3_paths db) n r
        → Outcome (record_prefix api join cfg pod db token namespace version r s')
    unfolding record_prefix update_config_map_data
    record_prefix-Outcome token version n (stopped c k, v) s' e copied complete = record {
      marker = inl e;
      success = λ h. cc h;
      kept = λ cm h. rw (same_old cm h) (Copied-IsKept v.objects copied);
      moved = λ cm h. inr (inl e);
    }
    record_prefix-Outcome token version n (done c k, v) s' e copied complete = record {
      marker = elim (laws.updates token version (configured cfg) s') [
        | inl same ↦ inl (same ∙ e)
        | inr held ↦ inr (recorded _ held)
      ];
      success = λ h.
          recorded _ (updated-Holds api stored token namespace pod.marker_name laws version _ s' h);
      kept = λ cm h. rw (same_old cm h) (Copied-IsKept v.objects copied);
      moved = λ cm h. rw (same_old cm h) (
          inr (
            inr (
              All-map (λ q (x, y). Copied-IsMoved v.objects q x y) (s3_paths db)
                (All-zip
                  (IsCopied (key_under join old) (key_under join cfg.s3_prefix) b.objects v.objects)
                  _ (s3_paths db) copied complete.0))));
    }

    module _ (ready : IsReady old) where
      migrate_paths-Outcome :
          (token version : Text) (fate : Fate) (s' : S)
          → old ≢ cfg.s3_prefix
          → stored s' ≡ stored s
          → Outcome (
              migrate_paths api join cfg pod db token namespace version old
                (read_paths fate db)
                s'
                b)
      unfolding migrate_paths migrate_prefix read_paths
      migrate_paths-Outcome token version refused s' other e = exit-Outcome s' e
      migrate_paths-Outcome token version (lost n) s' other e = exit-Outcome s' e
      migrate_paths-Outcome token version served s' other e =
          if_cases Outcome (not pod.has_client) _ _ (exit-Outcome s' e) (
            record_prefix-Outcome token version _ _ s' e
              (copy_paths-IsCopied (key_under join old) (key_under join cfg.s3_prefix) b.objects
                (s3_paths db) (ready other).0 0 0 b (ready other).1)
              (copy_paths-Complete (key_under join old) (key_under join cfg.s3_prefix) (s3_paths db)
                0 0 b))

      same_prefix-Outcome :
          (s' : S) → old ≡ cfg.s3_prefix → stored s' ≡ stored s → Outcome (true, s', b)
      same_prefix-Outcome s' same e = record {
        marker = inl e;
        success = λ h. (holds.0, e ∙ holds.1, ap prefix_of holds.2 ∙ same);
        kept = λ cm h. All-of_each (λ q. refl) (s3_paths db);
        moved = λ cm h. inl (same_old cm h ∙ same);
      }

      pub fetched-Outcome :
          (token version : Text) (s' : S)
          → stored s' ≡ stored s
          → Outcome (with_marker api join cfg pod db token namespace (fetched entries version) s' b)
      unfolding with_marker
      fetched-Outcome token version s' e = elim (Bool-cases (text_eq old cfg.s3_prefix)) [
        | inl same ↦ rw same (same_prefix-Outcome s' ((text_eq_iff old cfg.s3_prefix).0 same) e)
        | inr other ↦ rw other (
            if_cases Outcome (not pod.has_pool) _ _ (exit-Outcome s' e) (
              migrate_paths-Outcome token version pod.query_fate s'
                (λ same. cc ((text_eq_iff old cfg.s3_prefix).1 same, other)) e))
      ]
