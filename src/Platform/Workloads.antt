-- ===== src/Platform/Workloads.antt =====
-- The parts that the workloads of internal/controller/axonopsplatform_controller.go share: images,
-- defaults, probes, volumes of certificates and the claim of storage.
pub mod Timeseries
pub mod Search
pub mod Server
pub mod Dashboard
pub mod Mounts
pub mod Files
pub mod Ports
pub mod Credentials
use axonops_operator.Prelude.{
  ℕ, String, Bool, true, false, Option, none, some, List, [], ◌∷◌, ◌++◌, ◌<>◌, ◌==◌, or_default,
  if◌then◌else◌,
}
use axonops_operator.Image.{resolve_image}
use axonops_operator.Platform.Objects.{
  Map, EnvVar, literal, field_path, secret_key, Volume, VolumeMount, ContainerPort, Probe,
  ProbeAction, exec, http_get, SecurityContext, Container, ClaimTemplate,
}
use axonops_operator.Platform.Objects
use axonops_operator.Platform.Types.{Platform, AxonBaseComponent}

-- The value, or the default where it is the empty text.
abbrev pub or_else : String → String → String
or_else x d = if x == "" then d else x

-- `image:tag`, from the component's repository, the registry and the defaults.
unfoldable pub image_of : Platform → AxonBaseComponent → String → String → String
unfolding resolve_image
image_of p b default_image default_tag =
    resolve_image default_image p.spec.image_registry b.repository.image
    <> ":"
    <> or_else b.repository.tag default_tag

abbrev pub pull_policy_of : AxonBaseComponent → String
pull_policy_of b = or_else b.repository.pull_policy "IfNotPresent"

unfoldable pub resolve_init_image : Platform → String
unfolding resolve_image
resolve_init_image p =
    resolve_image "docker.io/library/busybox:1.37.0" p.spec.image_registry p.spec.init_image

abbrev pub value : String → String → EnvVar
value name v = record { name = name; source = literal v }

abbrev pub from_field : String → String → EnvVar
from_field name path = record { name = name; source = field_path path }

abbrev pub from_secret : String → String → String → Bool → EnvVar
from_secret name secret key optional = record {
  name = name;
  source = secret_key secret key optional;
}

abbrev pub container_port : String → ℕ → ContainerPort
container_port name port = record { name = name; container_port = port; protocol = "TCP" }

abbrev pub bash : String → ProbeAction
bash command = exec ("/bin/bash" ∷ "-ec" ∷ command ∷ [])

abbrev pub probe : ProbeAction → ℕ → ℕ → ℕ → ℕ → ℕ → Probe
probe action initial period timeout success failure = record {
  action = action;
  initial_delay_seconds = initial;
  period_seconds = period;
  timeout_seconds = timeout;
  success_threshold = success;
  failure_threshold = failure;
}

abbrev pub mount : String → String → Bool → VolumeMount
mount name path read_only = record { name = name; mount_path = path; read_only = read_only }

abbrev pub secret_volume : String → String → List String → Volume
secret_volume name secret items = record { name = name; source = Objects.secret secret items }

-- The keystores and the certificate in PEM, which the databases read.
abbrev pub keystore_items : List String
keystore_items =
    "keystore.jks" ∷ "truststore.jks" ∷ "keystore.p12" ∷ "truststore.p12" ∷ "tls.crt" ∷ "tls.key"
    ∷ "ca.crt" ∷ []

abbrev pub pem_items : List String
pem_items = "ca.crt" ∷ "tls.crt" ∷ "tls.key" ∷ []

-- The container that changes the owner of the data volume, as root.
unfoldable pub chown_container : Platform → String → String → Container
unfolding resolve_init_image
chown_container p command path = record {
  name = "fsgroup-volume";
  image = resolve_init_image p;
  image_pull_policy = "IfNotPresent";
  command = "sh" ∷ "-c" ∷ [];
  args = command ∷ [];
  security_context = some (record {
    read_only_root_filesystem = none;
    run_as_non_root = none;
    run_as_user = some 0;
    add = [];
    drop = [];
  });
  env = [];
  ports = [];
  startup_probe = none;
  liveness_probe = none;
  readiness_probe = none;
  resources = record { requests = []; limits = [] };
  volume_mounts = mount "data" path false ∷ [];
}

abbrev pub data_claim : Map → AxonBaseComponent → String → ClaimTemplate
data_claim labels b default_size = record {
  name = "data";
  labels = labels;
  access_modes = "ReadWriteOnce" ∷ [];
  storage = or_default b.storage_config.storage_request default_size;
}
