-- ===== src/Tests/Backends.antt =====
-- A backend of storage and the prefix command, at small inputs.
use fusion_index.Prelude.{
  false, All, ℕ, ◌≡◌, ◌⊎◌, inl, inr, refl, sym, ap, ◌∙◌, arith, true, Option, none, some, List, [],
  ◌∷◌, Text, codes, text_eq, find, keep_if,
}
use mathlib.Core.Path.{subst}
use fusion_index.Config.{Config}
use fusion_index.Db.{Db}
use fusion_index.Db.Cleanup.{is_in_s3, file_id_before, list_available_s3_file_paths}
use fusion_index.Db.Filtered.{is_incomplete}
use fusion_index.Db.Pages.{order_by, insert_by}
use fusion_index.Session.{served, lost, World, find_object}
use fusion_index.Kubernetes.{ConfigMap, Method, get, post, put, Response, Api, config_map}
use fusion_index.Kubernetes.Laws.{Holds, IsConfigMapApi}
use fusion_index.Migration.{Bucket, trim, join_prefix, trim_left, trim_right}
use fusion_index.Migration.Command.{
  Pod, prefix_key, prefix_of, paths_of, s3_paths, run_migrate_s3_prefix,
}
use fusion_index.Migration.Marker.{IsReady, Outcome}
use fusion_index.Migration.Marked.{run_migrate_s3_prefix-Outcome}
use fusion_index.Storage.{Storage, new_s3_storage, s3_key, s3_storage, build_storage}
use fusion_index.Storage.Refines.{
  StorageOp, path_of_op, put as put_op, get as get_op, del, perform_all, object_storage, fates_of,
  Agrees, SameContents, whole_fate,
}
use fusion_index.Storage.Backends.{key_of, fit_of, build_storage-Agrees}
use fusion_index.Tests.Registry.{tables, file, world}
use fusion_index.Tests.Services.{config, with_slash}

abbrev s3_config : Config
s3_config = record config { storage_backend = codes "S3"; s3_prefix = codes "index" }

abbrev ops : List StorageOp
ops = put_op (codes "1/a") (codes "A") ∷ get_op (codes "1/a") ∷ del (codes "1/a") ∷ []

-- The answer of the put is lost.
abbrev bucket : World
bucket = record world { objects = []; storage_fates = lost 0 ∷ [] }

abbrev objects : World
objects = record world { objects = []; storage_fates = lost 1 ∷ [] }

backend : Storage
backend = s3_storage with_slash (new_s3_storage (codes "index"))

-- Two paths are in use.
abbrev InUse : Text → Type 0
InUse p = (p ≡ codes "1/a") ⊎ (p ≡ codes "2/b")

abbrev ops_in_use : All (λ op. InUse (path_of_op op)) ops
ops_in_use = (inl refl, (inl refl, (inl refl, tt)))

abbrev used_key : Text → Text
used_key = key_of with_slash with_slash s3_config

differ : used_key (codes "1/a") ≡ used_key (codes "2/b") → ⊥
unfolding text_eq s3_key new_s3_storage trim trim_left trim_right join_prefix
differ e = let h : true ≡ false = ap (λ t. text_eq (used_key (codes "1/a")) t) e in cc h

injective_keys :
    (p q : Text)
    → InUse p
    → InUse q
    → key_of with_slash with_slash s3_config p ≡ key_of with_slash with_slash s3_config q
    → p ≡ q
unfolding text_eq s3_key new_s3_storage trim trim_left trim_right join_prefix
injective_keys p q (inl h) (inl k) e = h ∙ sym k
injective_keys p q (inr h) (inr k) e = h ∙ sym k
injective_keys p q (inl h) (inr k) e = absurd (differ (sym (ap used_key h) ∙ e ∙ ap used_key k))
injective_keys p q (inr h) (inl k) e = absurd (differ (sym (ap used_key k) ∙ sym e ∙ ap used_key h))

built : build_storage with_slash with_slash true s3_config ≡ some backend
unfolding build_storage backend
built = refl

no_objects : SameContents InUse (key_of with_slash with_slash s3_config) [] []
unfolding find_object find
no_objects p used = refl

lost_fates :
    objects.storage_fates
    ≡ fates_of (fit_of with_slash with_slash s3_config) ops bucket.storage_fates
unfolding fates_of whole_fate text_eq
lost_fates = refl

build_storage-Agrees_example :
    Agrees InUse
      (key_of with_slash with_slash s3_config)
      (perform_all backend ops bucket)
      (perform_all object_storage ops objects)
build_storage-Agrees_example =
    build_storage-Agrees InUse with_slash with_slash true s3_config backend ops bucket objects built
      injective_keys ops_in_use no_objects lost_fates

-- An API server of one ConfigMap.
abbrev answer_get : Option ConfigMap → Option Response
answer_get none = some (record { status = 404; body = none })
answer_get (some cm) = some (record { status = 200; body = some cm })

abbrev after_post : Option ConfigMap → Option ConfigMap → Option Response × Option ConfigMap
after_post body none = (some (record { status = 201; body = body }), body)
after_post body (some cm) = (some (record { status = 409; body = none }), some cm)

abbrev after_put : Option ConfigMap → Option ConfigMap → Option Response × Option ConfigMap
after_put body none = (some (record { status = 404; body = none }), none)
after_put body (some cm) = (some (record { status = 200; body = body }), body)

abbrev serve_api : Method → Option ConfigMap → Option ConfigMap → Option Response × Option ConfigMap
serve_api get body s = (answer_get s, s)
serve_api post body s = after_post body s
serve_api put body s = after_put body s

abbrev api : Api (Option ConfigMap)
api = record { send = λ r s. serve_api r.method r.body s }

abbrev self : Option ConfigMap → Option ConfigMap
self s = s

abbrev namespace : Text
namespace = codes "fusion"

abbrev pod : Pod
pod = record {
  namespace = some namespace;
  marker_name = codes "marker";
  has_http = true;
  token = some (codes "own");
  has_pool = true;
  query_fate = served;
  has_client = true;
}

abbrev status_of : Option Response → ℕ
status_of none = 0
status_of (some r) = r.status

abbrev body_of : Option Response → Option ConfigMap
body_of none = none
body_of (some r) = r.body

other_status :
    (m n : ℕ) (o : Option Response) (r : Response)
    → o ≡ some r
    → r.status ≡ n
    → status_of o ≡ m
    → m ≡ n
other_status m n o r e h k = sym k ∙ ap status_of e ∙ h

missing_get :
    (s : Option ConfigMap) (r : Response) → answer_get s ≡ some r → r.status ≡ 404 → s ≡ none
missing_get none r e h = refl
missing_get (some cm) r e h =
    absurd (omega (arith, other_status 200 404 (answer_get (some cm)) r e h refl))

found_get :
    (s : Option ConfigMap) (r : Response) (cm : ConfigMap)
    → answer_get s ≡ some r
    → r.status ≡ 200
    → r.body ≡ some cm
    → s ≡ some cm
found_get none r cm e h b =
    absurd (omega (arith, other_status 404 200 (answer_get none) r e h refl))
found_get (some k) r cm e h b = ap body_of e ∙ b

posts :
    (b : ConfigMap) (s : Option ConfigMap)
    → ((after_post (some b) s).1 ≡ s) ⊎ ((s ≡ none) × Holds b.data_map (after_post (some b) s).1)
posts b none = inr (refl, (b, refl, refl))
posts b (some cm) = inl refl

posted :
    (b : ConfigMap) (s : Option ConfigMap) (r : Response)
    → (after_post (some b) s).0 ≡ some r
    → r.status ≡ 201
    → Holds b.data_map (after_post (some b) s).1
posted b none r e h = (b, refl, refl)
posted b (some cm) r e h =
    absurd (omega (arith, other_status 409 201 (after_post (some b) (some cm)).0 r e h refl))

puts :
    (b : ConfigMap) (s : Option ConfigMap)
    → ((after_put (some b) s).1 ≡ s) ⊎ Holds b.data_map (after_put (some b) s).1
puts b none = inl refl
puts b (some cm) = inr (b, refl, refl)

put_done :
    (b : ConfigMap) (s : Option ConfigMap) (r : Response)
    → (after_put (some b) s).0 ≡ some r
    → r.status ≡ 200
    → Holds b.data_map (after_put (some b) s).1
put_done b none r e h =
    absurd (omega (arith, other_status 404 200 (after_put (some b) none).0 r e h refl))
put_done b (some cm) r e h = (b, refl, refl)

api-IsConfigMapApi : IsConfigMapApi api self namespace (codes "marker")
unfolding config_map
api-IsConfigMapApi = record {
  get_keeps = λ token s. refl;
  get_missing = λ token s r e h. missing_get s r e h;
  get_found = λ token s r cm e h b. found_get s r cm e h b;
  creates = λ token entries s. posts _ s;
  created = λ token entries s r e h. posted _ s r e h;
  updates = λ token version entries s. puts _ s;
  updated = λ token version entries s r e h. put_done _ s r e h;
}

-- A table with one file on S3, a marker that names the root of the bucket, and the object there.
abbrev s3_tables : Db
s3_tables = record tables {
  files = record file { storage_backend = codes "S3"; storage_path = codes "1/a" } ∷ [];
}

abbrev marker : ConfigMap
marker = config_map namespace (codes "marker") (codes "7") ((prefix_key, []) ∷ [])

abbrev filled : Bucket
filled = record {
  objects = record { path = codes "1/a"; content = codes "hi" } ∷ [];
  fates = served ∷ lost 0 ∷ [];
}

root-IsReady :
    IsReady api self with_slash s3_config pod s3_tables namespace api-IsConfigMapApi
      (some marker)
      filled
      []
unfolding text_eq s3_paths list_available_s3_file_paths is_in_s3 file_id_before is_incomplete
    paths_of order_by insert_by keep_if trim trim_left trim_right join_prefix find_object find
    config_map
root-IsReady other = ((((λ e. cc, λ e. refl), tt), tt), (record { old = refl; new = inl refl }, tt))

ready :
    (cm : ConfigMap)
    → some marker ≡ some cm
    → IsReady api self with_slash s3_config pod s3_tables namespace api-IsConfigMapApi
        (some marker)
        filled
        (prefix_of cm.data_map)
unfolding prefix_of text_eq config_map
ready cm e =
    let same : marker ≡ cm = cc e in
    subst
      (λ (c : ConfigMap).
        IsReady api self with_slash s3_config pod s3_tables namespace api-IsConfigMapApi
          (some marker) filled (prefix_of c.data_map))
      same root-IsReady

run_migrate_s3_prefix-Outcome_example :
    Outcome api self with_slash s3_config pod s3_tables namespace api-IsConfigMapApi
      (some marker)
      filled
      (run_migrate_s3_prefix api with_slash s3_config pod s3_tables (some marker) filled)
run_migrate_s3_prefix-Outcome_example =
    run_migrate_s3_prefix-Outcome api self with_slash s3_config pod s3_tables namespace
      api-IsConfigMapApi (some marker) filled refl refl ready
