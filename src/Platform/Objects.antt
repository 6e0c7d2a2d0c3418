-- ===== src/Platform/Objects.antt =====
-- The Kubernetes objects that internal/controller/axonopsplatform_controller.go writes: the fields
-- of k8s.io/api, cert-manager and the Gateway API that it sets or reads. A map is a list of entries.
use axonops_operator.Prelude.{ℕ, String, Bool, Option, List}

abbrev pub Map : Type 0
Map = List (String × String)

-- `metav1.OwnerReference`, by the owner's UID
pub record OwnerReference : Type 0 where
  pub uid : String
  pub controller : Bool

-- The metadata of an object that the operator writes, and what is specific to its kind.
pub record Object (A : Type 0) : Type 0 where
  pub namespace : String
  pub name : String
  pub labels : Map
  pub annotations : String → Option String
  pub owner_references : List OwnerReference
  pub content : A

-- `corev1.Secret`
pub record SecretContent : Type 0 where
  pub type : String
  pub entries : Map  -- `Data`
  pub string_data : Map

-- `corev1.ServicePort` with a named target port
pub record ServicePort : Type 0 where
  pub name : String
  pub port : ℕ
  pub target_port : String
  pub protocol : String

pub record ServiceSpec : Type 0 where
  pub type : String
  pub cluster_ip : String
  pub publish_not_ready_addresses : Bool
  pub selector : Map
  pub ports : List ServicePort

pub data EnvSource : Type 0 where
  literal : String → EnvSource
  field_path : String → EnvSource
  secret_key : String → String → Bool → EnvSource  -- the secret, its key, and whether it is optional
  other_source : String → EnvSource

pub record EnvVar : Type 0 where
  pub name : String
  pub source : EnvSource

-- The secret volumes list the files that they show; all of them for the empty list.
pub data VolumeSource : Type 0 where
  secret : String → List String → VolumeSource
  config_map : String → VolumeSource
  empty_dir : VolumeSource
  other_volume : String → VolumeSource

pub record Volume : Type 0 where
  pub name : String
  pub source : VolumeSource

pub record VolumeMount : Type 0 where
  pub name : String
  pub mount_path : String
  pub read_only : Bool

pub record ContainerPort : Type 0 where
  pub name : String
  pub container_port : ℕ
  pub protocol : String

pub data ProbeAction : Type 0 where
  exec : List String → ProbeAction
  http_get : String → String → ProbeAction  -- the path and the named port

-- `corev1.Probe`; 0 stands for a field that is not set.
pub record Probe : Type 0 where
  pub action : ProbeAction
  pub initial_delay_seconds : ℕ
  pub period_seconds : ℕ
  pub timeout_seconds : ℕ
  pub success_threshold : ℕ
  pub failure_threshold : ℕ

pub record SecurityContext : Type 0 where
  pub read_only_root_filesystem : Option Bool
  pub run_as_non_root : Option Bool
  pub run_as_user : Option ℕ
  pub add : List String
  pub drop : List String

pub record ResourceRequirements : Type 0 where
  pub requests : Map
  pub limits : Map

pub record Container : Type 0 where
  pub name : String
  pub image : String
  pub image_pull_policy : String
  pub command : List String
  pub args : List String
  pub security_context : Option SecurityContext
  pub env : List EnvVar
  pub ports : List ContainerPort
  pub startup_probe : Option Probe
  pub liveness_probe : Option Probe
  pub readiness_probe : Option Probe
  pub resources : ResourceRequirements
  pub volume_mounts : List VolumeMount

-- A preferred pod anti-affinity: each key's label is in the values beside it.
pub record AntiAffinity : Type 0 where
  pub weight : ℕ
  pub topology_key : String
  pub match_expressions : List (String × List String)

pub record PodSpec : Type 0 where
  pub service_account_name : String
  pub node_selector : Map
  pub automount_service_account_token : Option Bool
  pub termination_grace_period_seconds : Option ℕ
  pub fs_group : Option ℕ
  pub run_as_user : Option ℕ
  pub affinity : Option AntiAffinity
  pub init_containers : List Container
  pub containers : List Container
  pub volumes : List Volume

pub record PodTemplate : Type 0 where
  pub labels : Map
  pub annotations : String → Option String
  pub spec : PodSpec

-- `corev1.PersistentVolumeClaim`, as a template
pub record ClaimTemplate : Type 0 where
  pub name : String
  pub labels : Map
  pub access_modes : List String
  pub storage : String

pub record StatefulSetSpec : Type 0 where
  pub replicas : Option ℕ
  pub service_name : String
  pub pod_management_policy : String
  pub update_strategy : String
  pub match_labels : Map
  pub template : PodTemplate
  pub volume_claim_templates : List ClaimTemplate

pub record StatefulSetContent : Type 0 where
  pub spec : StatefulSetSpec
  pub ready_replicas : ℕ

pub record DeploymentSpec : Type 0 where
  pub replicas : ℕ
  pub match_labels : Map
  pub template : PodTemplate

-- `certmanagerv1.CertificateSpec`; durations are in hours.
pub record Keystore : Type 0 where
  pub create : Bool
  pub password_secret : String
  pub password_key : String

pub record CertificateSpec : Type 0 where
  pub secret_name : String
  pub issuer_name : String
  pub issuer_kind : String
  pub common_name : String
  pub dns_names : List String
  pub duration : ℕ
  pub renew_before : ℕ
  pub algorithm : String
  pub encoding : String
  pub size : ℕ
  pub usages : List String
  pub jks : Option Keystore
  pub pkcs12 : Option Keystore

pub data IssuerSpec : Type 0 where
  ca : String → IssuerSpec
  self_signed : IssuerSpec
  other_issuer : IssuerSpec

pub record IngressPath : Type 0 where
  pub path : String
  pub path_type : String
  pub service_name : String
  pub service_port : ℕ

pub record IngressRule : Type 0 where
  pub host : String
  pub paths : List IngressPath

-- `networkingv1.IngressTLS`
pub record IngressTls : Type 0 where
  pub hosts : List String
  pub secret_name : String

pub record IngressSpec : Type 0 where
  pub ingress_class_name : Option String
  pub rules : List IngressRule
  pub tls : List IngressTls

pub record ParentReference : Type 0 where
  pub name : String
  pub namespace : String

pub record BackendReference : Type 0 where
  pub name : String
  pub port : ℕ

-- `gatewayv1.HTTPRouteSpec`, its rules by their backends
pub record HttpRouteSpec : Type 0 where
  pub parent_refs : List ParentReference
  pub hostnames : List String
  pub rules : List (List BackendReference)

pub record Listener : Type 0 where
  pub name : String
  pub port : ℕ
  pub protocol : String
  pub hostname : Option String

pub record GatewaySpec : Type 0 where
  pub gateway_class_name : String
  pub listeners : List Listener

pub record StorageClass : Type 0 where
  pub name : String
  pub annotations : Map
  pub reclaim_policy : Option String
