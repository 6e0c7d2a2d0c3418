-- ===== src/Platform/Workloads/Server.antt =====
-- `ensureServerStatefulSet` and `buildServerEnv` of
-- internal/controller/axonopsplatform_controller.go.
use axonops_operator.Prelude.{
  String, Bool, true, false, Option, none, some, List, [], ◌∷◌, ◌++◌, ◌==◌, ◌&&◌, not,
  if◌then◌else◌,
}
use axonops_operator.ConfigHash.{merge_annotations_with_checksum}
use axonops_operator.Platform.Objects.{
  EnvVar, Volume, VolumeMount, Container, StatefulSetSpec, empty_dir, http_get, ProbeAction,
}
use axonops_operator.Platform.Types.{
  Platform, AxonBaseComponent, AxonServerComponent, component_timeseries, component_search,
  component_server, component_name, named, key_in, lookup, build_labels, build_selector_labels,
  resolve_secret_name, is_external,
}
use axonops_operator.Platform.Config.{is_verified}
use axonops_operator.Platform.Cluster.{Cluster, Tools, Step, stateful_set, apply_object}
use axonops_operator.Platform.Secrets.{owned}
use axonops_operator.Platform.Workloads.{
  image_of, pull_policy_of, from_secret, container_port, probe, mount, secret_volume, pem_items,
  data_claim, chown_container,
}

unfoldable pub build_server_env : Platform → List EnvVar → List EnvVar
unfolding resolve_secret_name
build_server_env p extra_env =
    let search = resolve_secret_name p component_search in
    let timeseries = resolve_secret_name p component_timeseries in
    (from_secret "SEARCH_DB_USERNAME" search "AXONOPS_SEARCH_USER" true
      ∷ from_secret "SEARCH_DB_PASSWORD" search "AXONOPS_SEARCH_PASSWORD" true
      ∷ from_secret "CQL_USERNAME" timeseries "AXONOPS_DB_USER" true
      ∷ from_secret "CQL_PASSWORD" timeseries "AXONOPS_DB_PASSWORD" true
      ∷ [])
    ++ extra_env

abbrev pub cert_secret : Option AxonBaseComponent → String
cert_secret none = ""
cert_secret (some b) = b.external.tls.cert_secret_ref

-- Whether an external database has certificates to mount.
unfoldable pub has_certificates : Option AxonBaseComponent → Bool
unfolding is_verified
has_certificates b = is_verified b && not (cert_secret b == "")

-- The mount of a database's certificates: those of an internal database, or of an external one
-- that has them.
unfoldable pub tls_mounts : Option AxonBaseComponent → String → String → List VolumeMount
unfolding is_external has_certificates
tls_mounts b name path =
    if is_external b
    then if has_certificates b then mount name path true ∷ [] else []
    else mount name path true ∷ []

-- The volume of a database's certificates, with the secret that an internal database has.
unfoldable pub tls_volumes : Option AxonBaseComponent → String → String → List Volume
unfolding is_external has_certificates
tls_volumes b name internal =
    if is_external b
    then if has_certificates b then secret_volume name (cert_secret b) pem_items ∷ [] else []
    else secret_volume name internal pem_items ∷ []

unfoldable pub server_mounts : Platform → AxonServerComponent → List VolumeMount
unfolding tls_mounts
server_mounts p srv =
    (mount "config" "/etc/axonops" false
      ∷ mount "logs" "/var/log/axonops" false
      ∷ mount "data" "/var/lib/axonops" false
      ∷ [])
    ++ tls_mounts p.spec.time_series "timeseries-tls" "/etc/axonops/certs/timeseries"
    ++ tls_mounts p.spec.search "search-tls" "/etc/axonops/certs/search"
    ++ srv.base.extra_volume_mounts

unfoldable pub server_volumes : Platform → AxonServerComponent → List Volume
unfolding tls_volumes
server_volumes p srv =
    (secret_volume "config" (component_name p component_server) []
      ∷ record { name = "logs"; source = empty_dir }
      ∷ [])
    ++ tls_volumes p.spec.time_series "timeseries-tls" (named p component_timeseries "-tls")
    ++ tls_volumes p.spec.search "search-tls" (named p component_search "-tls")
    ++ srv.base.extra_volumes

unfoldable pub server_command : Tools → List String
server_command t =
    ("/usr/share/axonops/axon-server" ∷ "-o" ∷ "stdout" ∷ [])
    ++ (if t.debug == "true" then "-v" ∷ "1" ∷ [] else [])

abbrev healthz : ProbeAction
healthz = http_get "/api/v1/healthz" "api"

unfoldable pub server_container : Tools → Platform → AxonServerComponent → Container
unfolding image_of server_command build_server_env server_mounts
server_container t p srv = record {
  name = "axon-server";
  image =
      image_of p srv.base "registry.axonops.com/axonops-public/axonops-docker/axon-server" "2.0.27";
  image_pull_policy = pull_policy_of srv.base;
  command = server_command t;
  args = [];
  security_context = some (record {
    read_only_root_filesystem = some false;
    run_as_non_root = some true;
    run_as_user = some 9988;
    add = [];
    drop = "ALL" ∷ [];
  });
  env = build_server_env p srv.base.env;
  ports = container_port "api" 8080 ∷ container_port "agent" 1888 ∷ [];
  startup_probe = some (probe healthz 0 2 3 0 60);
  liveness_probe = some (probe healthz 30 10 5 0 3);
  readiness_probe = some (probe healthz 10 5 3 0 3);
  resources = srv.base.resources;
  volume_mounts = server_mounts p srv;
}

unfoldable pub server_spec : Tools → Platform → AxonServerComponent → String → StatefulSetSpec
unfolding build_labels build_selector_labels merge_annotations_with_checksum server_container
    server_volumes chown_container
server_spec t p srv config_hash = record {
  replicas = some 1;
  service_name = named p component_server "-headless";
  pod_management_policy = "";
  update_strategy = "RollingUpdate";
  match_labels = build_selector_labels p component_server;
  template = record {
    labels = build_labels p component_server;
    annotations =
        merge_annotations_with_checksum (λ k. lookup k srv.base.annotations) "checksum/config"
          config_hash;
    spec = record {
      service_account_name = component_name p component_server;
      node_selector = srv.base.node_selector;
      automount_service_account_token = none;
      termination_grace_period_seconds = none;
      fs_group = none;
      run_as_user = none;
      affinity = none;
      init_containers =
          chown_container p "chown -R 9988:9988 /var/lib/axonops" "/var/lib/axonops" ∷ [];
      containers = server_container t p srv ∷ [];
      volumes = server_volumes p srv;
    };
  };
  volume_claim_templates = data_claim (build_labels p component_server) srv.base "1Gi" ∷ [];
}

module _ {W : Type 0} (t : Tools) (c : Cluster W) where
  unfoldable pub ensure_server_stateful_set :
      Platform → AxonServerComponent → String → Step W (Unit {0})
  unfolding apply_object owned build_labels server_spec
  ensure_server_stateful_set p srv config_hash =
      apply_object c.stateful_sets stateful_set (key_in p (component_name p component_server)) (
        owned t p λ o. record o {
          labels = build_labels p component_server;
          content = record o.content { spec = server_spec t p srv config_hash };
        })
