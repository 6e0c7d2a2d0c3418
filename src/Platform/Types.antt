-- ===== src/Platform/Types.antt =====
-- api/v1alpha1/axonopsplatform_types.go: the resource, as the controller reads it, and the tests
-- and names of internal/controller/axonopsplatform_controller.go that depend on it alone.
use axonops_operator.Prelude.{
  ℕ, String, Bool, true, false, Option, none, some, List, [], ◌∷◌, ◌<>◌, ◌==◌, ◌&&◌, not,
  if◌then◌else◌,
}
use axonops_operator.K8s.{ObjectMeta, Condition, Key}
use axonops_operator.Platform.Objects.{
  Map, EnvVar, Volume, VolumeMount, ResourceRequirements, IngressTls,
}

pub record AxonAuthentication : Type 0 where
  pub secret_ref : String
  pub username : String
  pub password : String

pub record AxonTlsConfig : Type 0 where
  pub enabled : Bool
  pub insecure_skip_verify : Bool
  pub cert_secret_ref : String

pub record AxonExternalConfig : Type 0 where
  pub hosts : List String
  pub tls : AxonTlsConfig
  pub data_center : String

pub record AxonRepository : Type 0 where
  pub image : String
  pub tag : String
  pub pull_policy : String

-- `corev1.PersistentVolumeClaimSpec`: its class and the storage it requests
pub record StorageConfig : Type 0 where
  pub storage_class_name : Option String
  pub storage_request : Option String

pub record Ingress : Type 0 where
  pub enabled : Bool
  pub annotations : Map
  pub labels : Map
  pub ingress_class_name : String
  pub hosts : List String
  pub tls : List IngressTls
  pub path : String
  pub path_type : String
  pub service_name : String
  pub service_port : ℕ

pub record GatewayConfig : Type 0 where
  pub enabled : Bool
  pub gateway_class_name : String
  pub annotations : Map
  pub labels : Map
  pub port : ℕ
  pub hostname : String
  pub path : String
  pub service_name : String
  pub service_port : ℕ

-- `AxonBaseComponent`, and `AxonDbComponent`, which adds nothing to it
pub record AxonBaseComponent : Type 0 where
  pub enabled : Option Bool
  pub annotations : Map
  pub env : List EnvVar
  pub external : AxonExternalConfig
  pub authentication : AxonAuthentication
  pub heap_size : String
  pub repository : AxonRepository
  pub resources : ResourceRequirements
  pub node_selector : Map
  pub extra_volumes : List Volume
  pub extra_volume_mounts : List VolumeMount
  pub storage_config : StorageConfig

pub record License : Type 0 where
  pub key : String
  pub secret_ref : String

pub record AxonServerComponent : Type 0 where
  pub base : AxonBaseComponent
  pub org_name : String
  pub license : License
  pub agent_ingress : Ingress
  pub api_ingress : Ingress
  pub agent_gateway : GatewayConfig
  pub api_gateway : GatewayConfig
  pub config : Option String

pub record AxonDashboardComponent : Type 0 where
  pub base : AxonBaseComponent
  pub replicas : Option ℕ
  pub ingress : Ingress
  pub gateway : GatewayConfig

pub record IssuerConfig : Type 0 where
  pub name : String
  pub ca_secret_ref : String

pub record PlatformSpec : Type 0 where
  pub pause : Bool
  pub server : Option AxonServerComponent
  pub time_series : Option AxonBaseComponent
  pub search : Option AxonBaseComponent
  pub dashboard : Option AxonDashboardComponent
  pub issuer : IssuerConfig
  pub image_registry : String
  pub init_image : String

pub record PlatformStatus : Type 0 where
  pub conditions : List Condition
  pub time_series_secret_name : String
  pub search_secret_name : String
  pub time_series_cert_secret_name : String
  pub search_cert_secret_name : String
  pub observed_generation : ℕ

pub record Platform : Type 0 where
  pub metadata : ObjectMeta
  pub uid : String
  pub spec : PlatformSpec
  pub status : PlatformStatus

abbrev pub component_timeseries : String
component_timeseries = "timeseries"

abbrev pub component_search : String
component_search = "search"

abbrev pub component_server : String
component_server = "server"

abbrev pub component_dashboard : String
component_dashboard = "dashboard"

-- `isComponentEnabled` on the component's `Enabled` pointer
abbrev pub flag : Option Bool → Bool
flag none = true
flag (some b) = b

unfoldable pub base_enabled : Option AxonBaseComponent → Bool
base_enabled none = false
base_enabled (some c) = flag c.enabled

unfoldable pub server_enabled : Option AxonServerComponent → Bool
server_enabled none = false
server_enabled (some c) = flag c.base.enabled

unfoldable pub dashboard_enabled : Option AxonDashboardComponent → Bool
dashboard_enabled none = false
dashboard_enabled (some c) = flag c.base.enabled

abbrev has_hosts : List String → Bool
has_hosts [] = false
has_hosts (h ∷ hs) = true

unfoldable pub is_external : Option AxonBaseComponent → Bool
is_external none = false
is_external (some c) = has_hosts c.external.hosts

unfoldable pub is_search_external : Platform → Bool
unfolding is_external
is_search_external p = is_external p.spec.search

unfoldable pub is_time_series_external : Platform → Bool
unfolding is_external
is_time_series_external p = is_external p.spec.time_series

-- `needsInternalResources`
unfoldable pub needs_internal_resources : Platform → Bool
unfolding base_enabled is_time_series_external is_search_external
needs_internal_resources p =
    if base_enabled p.spec.time_series && not (is_time_series_external p)
    then true
    else if base_enabled p.spec.search && not (is_search_external p)
    then true
    else false

unfoldable pub resolve_issuer_name : String → Platform → String
resolve_issuer_name cluster_issuer_name p =
    if p.spec.issuer.name == "" then cluster_issuer_name else p.spec.issuer.name

-- `fmt.Sprintf("%s-%s", server.Name, component)`, and with a suffix
abbrev pub component_name : Platform → String → String
component_name p component = p.metadata.name <> "-" <> component

abbrev pub named : Platform → String → String → String
named p component suffix = p.metadata.name <> "-" <> component <> suffix

abbrev pub key_in : Platform → String → Key
key_in p name = record { namespace = p.metadata.namespace; name = name }

unfoldable pub build_labels : Platform → String → Map
build_labels p component =
    ("app.kubernetes.io/name", "axonops")
    ∷ ("app.kubernetes.io/instance", p.metadata.name)
    ∷ ("app.kubernetes.io/component", component)
    ∷ ("app.kubernetes.io/managed-by", "axonops-operator")
    ∷ []

unfoldable pub build_selector_labels : Platform → String → Map
build_selector_labels p component =
    ("app.kubernetes.io/name", "axonops")
    ∷ ("app.kubernetes.io/instance", p.metadata.name)
    ∷ ("app.kubernetes.io/component", component)
    ∷ []

-- The first entry for a key of a map.
unfoldable pub lookup : String → Map → Option String
lookup k [] = none
lookup k ((j, v) ∷ m) = if j == k then some v else lookup k m

-- `m[k] = v`
unfoldable pub set_entry : String → String → Map → Map
set_entry k v [] = (k, v) ∷ []
set_entry k v ((j, w) ∷ m) =
    let rest = set_entry k v m in if j == k then (k, v) ∷ m else (j, w) ∷ rest

-- `maps.Copy(dst, src)`
unfoldable pub copy_entries : Map → Map → Map
unfolding set_entry
copy_entries dst [] = dst
copy_entries dst ((k, v) ∷ src) = copy_entries (set_entry k v dst) src

abbrev spec_secret_ref : Option AxonBaseComponent → String
spec_secret_ref none = ""
spec_secret_ref (some c) = c.authentication.secret_ref

-- `resolveSecretName`: the specification, then the status, then the convention.
unfoldable pub resolve_secret_name : Platform → String → String
resolve_secret_name p component =
    let ref =
      if component == component_timeseries
      then spec_secret_ref p.spec.time_series
      else if component == component_search
      then spec_secret_ref p.spec.search
      else "" in
    let recorded =
      if component == component_timeseries
      then p.status.time_series_secret_name
      else if component == component_search
      then p.status.search_secret_name
      else "" in
    if ref == "" then if recorded == "" then named p component "-auth" else recorded else ref

-- `getSecretKeys`: the keys of the user and of the password.
unfoldable pub get_secret_keys : String → String × String
get_secret_keys component =
    if component == "search"
    then ("AXONOPS_SEARCH_USER", "AXONOPS_SEARCH_PASSWORD")
    else ("AXONOPS_DB_USER", "AXONOPS_DB_PASSWORD")
