-- ===== src/Kubernetes/Laws.antt =====
-- What a client of internal/k8sclient/configmap.go relies on, and what the calls then tell.
use fusion_index.Prelude.{
  ℕ, ◌≡◌, ◌⊎◌, refl, Bool, true, false, Option, none, some, List, Text, ==_iff, if◌then◌else◌,
}
use fusion_index.Kubernetes.{
  ConfigMap, Response, Api, Fetched, failed, missing, fetched, decoded, fetched_of, has_status,
  get_request, create_request, update_request, get_config_map_data, create_config_map_data,
  update_config_map_data,
}

-- A ConfigMap is there with these entries.
abbrev pub Holds : List (Text × Text) → Option ConfigMap → Type 0
Holds entries o = (cm : ConfigMap) × (o ≡ some cm) × (cm.data_map ≡ entries)

-- What the API server documents of one ConfigMap: a get tells whether it is there and what it holds; a
-- write takes place or not, whatever becomes of its answer, and has taken place where the answer says so;
-- a create takes place only where there is none.
pub record IsConfigMapApi {S : Type 0} (api : Api S) (stored : S → Option ConfigMap)
    (namespace name : Text) : Type 0 where
  pub get_keeps :
      (token : Text) (s : S)
      → stored (api.send (get_request api token namespace name) s).1 ≡ stored s
  pub get_missing :
      (token : Text) (s : S) (r : Response)
      → (api.send (get_request api token namespace name) s).0 ≡ some r
      → r.status ≡ 404
      → stored s ≡ none
  pub get_found :
      (token : Text) (s : S) (r : Response) (cm : ConfigMap)
      → (api.send (get_request api token namespace name) s).0 ≡ some r
      → r.status ≡ 200
      → r.body ≡ some cm
      → stored s ≡ some cm
  pub creates :
      (token : Text) (entries : List (Text × Text)) (s : S)
      → (stored (api.send (create_request api token namespace name entries) s).1 ≡ stored s)
        ⊎ ((stored s ≡ none)
            × Holds entries
                (stored (api.send (create_request api token namespace name entries) s).1))
  pub created :
      (token : Text) (entries : List (Text × Text)) (s : S) (r : Response)
      → (api.send (create_request api token namespace name entries) s).0 ≡ some r
      → r.status ≡ 201
      → Holds entries (stored (api.send (create_request api token namespace name entries) s).1)
  pub updates :
      (token version : Text) (entries : List (Text × Text)) (s : S)
      → (stored (api.send (update_request api token namespace name version entries) s).1 ≡ stored s)
        ⊎ Holds entries
            (stored (api.send (update_request api token namespace name version entries) s).1)
  pub updated :
      (token version : Text) (entries : List (Text × Text)) (s : S) (r : Response)
      → (api.send (update_request api token namespace name version entries) s).0 ≡ some r
      → r.status ≡ 200
      → Holds entries
          (stored (api.send (update_request api token namespace name version entries) s).1)

abbrev by_status : Bool → Bool → Option ConfigMap → Fetched
by_status gone found body = if gone then missing else if found then decoded body else failed

is_missing :
    (gone found : Bool) (body : Option ConfigMap)
    → by_status gone found body ≡ missing
    → gone ≡ true
unfolding decoded
is_missing true found body h = refl
is_missing false true none h = cc h
is_missing false true (some cm) h = cc h
is_missing false false body h = cc h

is_fetched :
    (gone found : Bool) (body : Option ConfigMap) (entries : List (Text × Text)) (version : Text)
    → by_status gone found body ≡ fetched entries version
    → (found ≡ true) × (cm : ConfigMap) × (body ≡ some cm) × (cm.data_map ≡ entries)
unfolding decoded
is_fetched true found body entries version h = cc h
is_fetched false true none entries version h = cc h
is_fetched false true (some cm) entries version h = (refl, cm, refl, cc h)
is_fetched false false body entries version h = cc h

-- What a get is understood as.
module _ {S : Type 0} (api : Api S) (stored : S → Option ConfigMap) (token namespace name : Text)
    (laws : IsConfigMapApi api stored namespace name) (s : S) where
  abbrev marker : Fetched
  marker = (get_config_map_data api token namespace name s).0

  abbrev answer : Option Response
  answer = (api.send (get_request api token namespace name) s).0

  pub get-missing : marker ≡ missing → stored s ≡ none
  unfolding get_config_map_data fetched_of
  get-missing e = go answer refl e
    where
      go : (o : Option Response) → answer ≡ o → fetched_of o ≡ missing → stored s ≡ none
      go none a h = cc h
      go (some r) a h =
          laws.get_missing token s r a ((==_iff r.status 404).0 (is_missing _ _ r.body h))

  pub get-fetched :
      (entries : List (Text × Text)) (version : Text)
      → marker ≡ fetched entries version
      → Holds entries (stored s)
  unfolding get_config_map_data fetched_of
  get-fetched entries version e = go answer refl e
    where
      go :
          (o : Option Response)
          → answer ≡ o
          → fetched_of o ≡ fetched entries version
          → Holds entries (stored s)
      go none a h = cc h
      go (some r) a h =
          let (found, cm, body, same) = is_fetched _ _ r.body entries version h in
          (cm, laws.get_found token s r cm a ((==_iff r.status 200).0 found) body, same)

module _ {S : Type 0} (api : Api S) (stored : S → Option ConfigMap) (token namespace name : Text)
    (laws : IsConfigMapApi api stored namespace name) where
  holds_of_status :
      (code : ℕ) (o : Option Response) (P : Type 0)
      → ((r : Response) → o ≡ some r → r.status ≡ code → P)
      → has_status code o ≡ true
      → P
  unfolding has_status
  holds_of_status code none P f h = cc h
  holds_of_status code (some r) P f h = f r refl ((==_iff r.status code).0 h)

  pub created-Holds :
      (entries : List (Text × Text)) (s : S)
      → (create_config_map_data api token namespace name entries s).0 ≡ true
      → Holds entries (stored (create_config_map_data api token namespace name entries s).1)
  unfolding create_config_map_data
  created-Holds entries s = holds_of_status 201 _ _ (λ r e c. laws.created token entries s r e c)

  pub updated-Holds :
      (version : Text) (entries : List (Text × Text)) (s : S)
      → (update_config_map_data api token namespace name version entries s).0 ≡ true
      → Holds entries (stored (update_config_map_data api token namespace name version entries s).1)
  unfolding update_config_map_data
  updated-Holds version entries s =
      holds_of_status 200 _ _ (λ r e c. laws.updated token version entries s r e c)
