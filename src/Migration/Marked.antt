-- ===== src/Migration/Marked.antt =====
-- cmd/server/migrate.go: a run of the command from its start.
use fusion_index.Prelude.{
  ◌≡◌, refl, sym, ap, Bool, true, false, not, Option, none, some, [], Text, codes, text_eq,
  text_eq_iff, if_cases,
}
use mathlib.Core.Path.{subst}
use fusion_index.Config.{Config}
use fusion_index.Db.{Db}
use fusion_index.Kubernetes.{ConfigMap, Api, Fetched, failed, missing, fetched, get_config_map_data}
use fusion_index.Kubernetes.Laws.{IsConfigMapApi, get-missing, get-fetched}
use fusion_index.Migration.{Bucket}
use fusion_index.Migration.Command.{
  Pod, prefix_of, with_marker, read_marker, in_namespace, run_migrate_s3_prefix,
}
use fusion_index.Migration.Marker.{IsReady, Outcome, exit-Outcome, create-Outcome, fetched-Outcome}

module _ {S : Type 0} (api : Api S) (stored : S → Option ConfigMap) (join : Text → Text → Text)
    (cfg : Config) (pod : Pod) (db : Db) (namespace : Text)
    (laws : IsConfigMapApi api stored namespace pod.marker_name) (s : S) (b : Bucket)
    (ready : (cm : ConfigMap)
      → stored s ≡ some cm
      → IsReady api stored join cfg pod db namespace laws s b (prefix_of cm.data_map)) where
  abbrev Ends : Bool × S × Bucket → Type 0
  Ends = Outcome api stored join cfg pod db namespace laws s b

  marker-Ends :
      (token : Text) (m : Fetched)
      → (get_config_map_data api token namespace pod.marker_name s).0 ≡ m
      → Ends (
          with_marker api join cfg pod db token namespace m
            (get_config_map_data api token namespace pod.marker_name s).1
            b)
  unfolding with_marker get_config_map_data
  marker-Ends token failed e =
      exit-Outcome api stored join cfg pod db namespace laws s b _ (laws.get_keeps token s)
  marker-Ends token missing e =
      create-Outcome api stored join cfg pod db namespace laws s b token _ (laws.get_keeps token s)
        (get-missing api stored token namespace pod.marker_name laws s e)
  marker-Ends token (fetched entries version) e =
      let holds = get-fetched api stored token namespace pod.marker_name laws s entries version e in
      fetched-Outcome api stored join cfg pod db namespace laws s b entries holds
        (subst (IsReady api stored join cfg pod db namespace laws s b) (ap prefix_of holds.2)
          (ready holds.0 holds.1))
        token version _ (laws.get_keeps token s)

  read_marker-Ends :
      (token : Option Text) → Ends (read_marker api join cfg pod db namespace token s b)
  unfolding read_marker
  read_marker-Ends none = exit-Outcome api stored join cfg pod db namespace laws s b s refl
  read_marker-Ends (some token) = marker-Ends token _ refl

-- A run on S3, whichever of its calls fail, leaves the marker as it was or recording the configured prefix,
-- and records it where it ends without an error; every old object stays as it was; and a marker that has
-- come to name another prefix than before has the new object of every AVAILABLE file on S3 there, with the
-- content of the old one. Where the prefixes differ, the keys of these files under the new one are told apart
-- by the paths and are none of the old ones, and an object that is there under a new key has the content of the old one, and the API server does
-- what it documents.
pub run_migrate_s3_prefix-Outcome :
    {S : Type 0} (api : Api S) (stored : S → Option ConfigMap) (join : Text → Text → Text)
    (cfg : Config) (pod : Pod) (db : Db) (namespace : Text)
    (laws : IsConfigMapApi api stored namespace pod.marker_name) (s : S) (b : Bucket)
    → cfg.storage_backend ≡ codes "S3"
    → pod.namespace ≡ some namespace
    → ((cm : ConfigMap)
        → stored s ≡ some cm
        → IsReady api stored join cfg pod db namespace laws s b (prefix_of cm.data_map))
    → Outcome api stored join cfg pod db namespace laws s b
        (run_migrate_s3_prefix api join cfg pod db s b)
unfolding run_migrate_s3_prefix in_namespace
run_migrate_s3_prefix-Outcome {S = S} api stored join cfg pod db namespace laws s b on_s3 in_pod
      ready =
    let yes : text_eq cfg.storage_backend (codes "S3") ≡ true = (text_eq_iff _ _).1 on_s3 in
    rw yes (subst (λ o. Ended (in_namespace api join cfg pod db o s b)) (sym in_pod) found)
  where
    Ended : Bool × S × Bucket → Type 0
    Ended = Outcome api stored join cfg pod db namespace laws s b

    exits : Ended (false, s, b)
    exits = exit-Outcome api stored join cfg pod db namespace laws s b s refl

    found : Ended (in_namespace api join cfg pod db (some namespace) s b)
    found = if_cases Ended (text_eq pod.marker_name []) _ _ exits (
        if_cases Ended (not pod.has_http) _ _ exits
          (read_marker-Ends api stored join cfg pod db namespace laws s b ready pod.token))
