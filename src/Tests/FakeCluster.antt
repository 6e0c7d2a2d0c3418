-- ===== src/Tests/FakeCluster.antt =====
-- A cluster at concrete values: one platform, its secrets as a function of their key, no other
-- objects, and random numbers that are all 0.
use axonops_operator.Prelude.{
  String, ◌≡◌, refl, Bool, true, false, Option, none, some, List, [], ◌∷◌, ◌==◌, ◌&&◌, eq_refl,
  arith, if◌then◌else◌, ap,
}
use axonops_operator.Errors.{Error, foreign, Result, ok, err}
use axonops_operator.Json.{null}
use axonops_operator.K8s.{Key, ObjectMeta}
use axonops_operator.Http.{Run}
use axonops_operator.Platform.Objects.{Object, SecretContent}
use axonops_operator.Platform.Types.{
  Platform, PlatformStatus, AxonBaseComponent, AxonServerComponent, AxonDashboardComponent, Ingress,
  GatewayConfig, AxonAuthentication, StorageConfig,
}
use axonops_operator.Platform.Cluster.{Cluster, Store, Tools, Write}
use axonops_operator.Platform.Secrets.Stable.{IsFaithful}
use axonops_operator.Platform.Password.Classes.{IsRandom}
use axonops_operator.Tests.Fake.{absent}

pub record World : Type 0 where
  pub platform : Option Platform
  pub secrets : Key → Option (Object SecretContent)

abbrev not_found : Error
not_found = foreign "not found"

abbrev pub same_key : Key → Key → Bool
same_key k j = k.namespace == j.namespace && k.name == j.name

abbrev blank : {A : Type 0} → Key → A → Object A
blank k content = record {
  namespace = k.namespace;
  name = k.name;
  labels = [];
  annotations = λ a. none;
  owner_references = [];
  content = content;
}

abbrev no_secret : SecretContent
no_secret = record { type = ""; entries = []; string_data = [] }

abbrev existing : Key → World → Object SecretContent
existing k w = elim (w.secrets k) [ none ↦ blank k no_secret | some o ↦ o ]

abbrev put : Key → Option (Object SecretContent) → World → World
put k o w = record w { secrets = λ j. if same_key k j then o else w.secrets j }

stored : Key → Result (Object SecretContent) → World → Result (Unit {0}) × World
stored k (ok o) w = (ok tt, put k (some o) w)
stored k (err e) w = (err e, w)

unfoldable pub fake_secrets : Store World SecretContent
unfolding stored
fake_secrets = record {
  get = λ k w. (absent (w.secrets k), w);
  create_or_update = λ k mutate w. stored k (mutate (existing k w)) w;
  delete = λ k w. (ok tt, put k none w);
}

-- Objects that are never there, and are accepted whatever they are.
abbrev quiet : {A : Type 0} → Store World A
quiet = record {
  get = λ k w. (err not_found, w);
  create_or_update = λ k mutate w. (ok tt, w);
  delete = λ k w. (err not_found, w);
}

unfoldable pub fake_cluster : Cluster World
unfolding fake_secrets
fake_cluster = record {
  secrets = fake_secrets;
  service_accounts = quiet;
  services = quiet;
  config_maps = quiet;
  stateful_sets = quiet;
  deployments = quiet;
  certificates = quiet;
  cluster_issuers = quiet;
  ingresses = quiet;
  http_routes = quiet;
  gateways = quiet;
  get_platform = λ k w. (absent w.platform, w);
  update_platform = λ p w. (ok p, record w { platform = some p });
  update_status = λ p w. (ok p, record w { platform = some p });
  get_storage_class = λ n w. (err not_found, w);
  list_storage_classes = λ w. (ok [], w);
  certificate_mapping = λ w. (ok tt, w);
  random_below = λ n w. (ok 0, w);
}

abbrev pub fake_tools : Tools
fake_tools = record {
  quote = λ x. x;
  to_lower = λ x. x;
  sha256_hex = λ x. x;
  unmarshal = λ x. ok null;
  yaml = λ v. ok "";
  debug = "";
  cluster_issuer_name = "axonops-selfsigned";
  set_controller_reference = λ uid rs. ok (record { uid = uid; controller = true } ∷ rs);
}

same_key_refl : (k : Key) → same_key k k ≡ true
same_key_refl k = rw (eq_refl k.namespace, eq_refl k.name)

stored-read :
    (k : Key) (r : Result (Object SecretContent)) (w : World)
    → (stored k r w).0 ≡ ok tt
    → (o : Object SecretContent) × (r ≡ ok o) × ((stored k r w).1.secrets k ≡ some o)
unfolding stored
stored-read k (ok o) w h = (o, refl, rw (same_key_refl k) refl)
stored-read k (err e) w h = absurd (ground arith)

pub fake_secrets-IsFaithful : IsFaithful fake_secrets
unfolding fake_secrets
fake_secrets-IsFaithful = record {
  get-pure = λ k w. refl;
  get-applied = λ k mutate w h.
      let (o', made, there) = stored-read k (mutate (existing k w)) w h in
      (existing k w, o', made, ap absent there);
}

pub fake_cluster-IsRandom : IsRandom fake_cluster
unfolding fake_cluster
fake_cluster-IsRandom n w h = (0, refl, h)

abbrev pub metadata : List String → ObjectMeta
metadata finalizers = record {
  namespace = "apps";
  name = "acme";
  generation = 3;
  resource_version = "7";
  deletion_timestamp = none;
  finalizers = finalizers;
}

abbrev pub no_auth : AxonAuthentication
no_auth = record { secret_ref = ""; username = ""; password = "" }

abbrev pub storage : StorageConfig
storage = record { storage_class_name = none; storage_request = none }

-- A component as the defaults leave it.
abbrev pub base : AxonBaseComponent
base = record {
  enabled = none;
  annotations = [];
  env = [];
  external = record {
    hosts = [];
    tls = record { enabled = false; insecure_skip_verify = false; cert_secret_ref = "" };
    data_center = "";
  };
  authentication = no_auth;
  heap_size = "";
  repository = record { image = ""; tag = ""; pull_policy = "" };
  resources = record { requests = []; limits = [] };
  node_selector = [];
  extra_volumes = [];
  extra_volume_mounts = [];
  storage_config = storage;
}

abbrev ingress : Ingress
ingress = record {
  enabled = false;
  annotations = [];
  labels = [];
  ingress_class_name = "";
  hosts = [];
  tls = [];
  path = "";
  path_type = "";
  service_name = "";
  service_port = 0;
}

abbrev gateway : GatewayConfig
gateway = record {
  enabled = true;
  gateway_class_name = "nginx";
  annotations = [];
  labels = [];
  port = 0;
  hostname = "";
  path = "";
  service_name = "";
  service_port = 0;
}

abbrev pub server : AxonServerComponent
server = record {
  base = base;
  org_name = "acme";
  license = record { key = ""; secret_ref = "" };
  agent_ingress = ingress;
  api_ingress = ingress;
  agent_gateway = gateway;
  api_gateway = gateway;
  config = none;
}

abbrev pub dashboard : AxonDashboardComponent
dashboard = record { base = base; replicas = none; ingress = ingress; gateway = gateway }

abbrev status : PlatformStatus
status = record {
  conditions = [];
  time_series_secret_name = "";
  search_secret_name = "";
  time_series_cert_secret_name = "";
  search_cert_secret_name = "";
  observed_generation = 0;
}

-- All four components, which the operator runs, and the finalizer.
abbrev pub acme : Platform
acme = record {
  metadata = metadata ("core.axonops.com/finalizer" ∷ []);
  uid = "u-1";
  spec = record {
    pause = false;
    server = some server;
    time_series = some base;
    search = some base;
    dashboard = some dashboard;
    issuer = record { name = ""; ca_secret_ref = "" };
    image_registry = "";
    init_image = "";
  };
  status = status;
}

abbrev pub acme_key : Key
acme_key = record { namespace = "apps"; name = "acme" }

abbrev pub begin : Platform → Run World Write
begin p = record { world = record { platform = some p; secrets = λ k. none }; calls = [] }
