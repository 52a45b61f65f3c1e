-- ===== src/Kubernetes.antt =====
-- internal/k8sclient/configmap.go: a ConfigMap is read, created and replaced over HTTP. What the API
-- server does is the parameter `Api`; JSON is not modelled, a body is the ConfigMap that it encodes.
pub mod Laws
use fusion_index.Prelude.{
  ℕ, ◌≡◌, ◌⊎◌, Bool, true, false, Option, none, some, List, [], ◌∷◌, ◌++◌, Text, codes, text_eq,
  ◌==◌, if◌then◌else◌,
}

pub record ConfigMap : Type 0 where
  pub api_version : Text
  pub kind : Text
  pub name : Text
  pub namespace : Text
  pub resource_version : Text
  pub data_map : List (Text × Text)

pub data Method : Type 0 where
  get post put : Method

pub record Request : Type 0 where
  pub method : Method
  pub url : Text
  pub token : Text
  pub body : Option ConfigMap

-- A response: its status, and its body if it decodes to a ConfigMap.
pub record Response : Type 0 where
  pub status : ℕ
  pub body : Option ConfigMap

-- client.Do over the state of the API server; no response where the connection fails.
pub record Api (S : Type 0) : Type 0 where
  pub send : Request → S → Option Response × S

abbrev pub api_base : Text
api_base = codes "https://kubernetes.default.svc"

unfoldable pub config_maps_url : Text → Text
config_maps_url namespace =
    api_base ++ (codes "/api/v1/namespaces/" ++ (namespace ++ codes "/configmaps"))

-- configMapURL
unfoldable pub config_map_url : Text → Text → Text
config_map_url namespace name =
    api_base ++ (codes "/api/v1/namespaces/" ++ (namespace ++ (codes "/configmaps/" ++ name)))

-- The results of GetConfigMapData: an error, found = false, or the data with the resource version.
pub data Fetched : Type 0 where
  failed missing : Fetched
  fetched : List (Text × Text) → Text → Fetched

unfoldable pub decoded : Option ConfigMap → Fetched
decoded none = failed
decoded (some cm) = fetched cm.data_map cm.resource_version

unfoldable pub fetched_of : Option Response → Fetched
unfolding decoded
fetched_of none = failed
fetched_of (some r) =
    if r.status == 404 then missing else if r.status == 200 then decoded r.body else failed

-- Whether a write is answered with the status of success.
unfoldable pub has_status : ℕ → Option Response → Bool
has_status code none = false
has_status code (some r) = r.status == code

-- The body of a write; a new ConfigMap has no resource version.
unfoldable pub config_map : Text → Text → Text → List (Text × Text) → ConfigMap
config_map namespace name resource_version entries = record {
  api_version = codes "v1";
  kind = codes "ConfigMap";
  name = name;
  namespace = namespace;
  resource_version = resource_version;
  data_map = entries;
}

module _ {S : Type 0} (api : Api S) (token namespace name : Text) where
  abbrev pub get_request : Request
  get_request = record {
    method = get;
    url = config_map_url namespace name;
    token = token;
    body = none;
  }

  abbrev pub create_request : List (Text × Text) → Request
  create_request entries = record {
    method = post;
    url = config_maps_url namespace;
    token = token;
    body = some (config_map namespace name [] entries);
  }

  abbrev pub update_request : Text → List (Text × Text) → Request
  update_request resource_version entries = record {
    method = put;
    url = config_map_url namespace name;
    token = token;
    body = some (config_map namespace name resource_version entries);
  }

  -- GetConfigMapData
  unfoldable pub get_config_map_data : S → Fetched × S
  unfolding fetched_of config_map_url
  get_config_map_data s = let (r, s') = api.send get_request s in (fetched_of r, s')

  -- CreateConfigMapData
  unfoldable pub create_config_map_data : List (Text × Text) → S → Bool × S
  unfolding has_status config_map config_maps_url
  create_config_map_data entries s =
      let (r, s') = api.send (create_request entries) s in (has_status 201 r, s')

  -- UpdateConfigMapData
  unfoldable pub update_config_map_data : Text → List (Text × Text) → S → Bool × S
  unfolding has_status config_map config_map_url
  update_config_map_data resource_version entries s =
      let (r, s') = api.send (update_request resource_version entries) s in (has_status 200 r, s')
