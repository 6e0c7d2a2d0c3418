-- ===== src/Platform/Workloads/Timeseries.antt =====
-- `ensureTimeseriesStatefulSet` and `buildTimeseriesEnv` of
-- internal/controller/axonopsplatform_controller.go.
use axonops_operator.Prelude.{String, true, false, Option, none, some, List, [], ◌∷◌, ◌++◌, ◌<>◌}
use axonops_operator.ConfigHash.{merge_annotations_with_checksum}
use axonops_operator.Platform.Objects.{EnvVar, Volume, VolumeMount, Container, StatefulSetSpec}
use axonops_operator.Platform.Types.{
  Platform, AxonBaseComponent, AxonServerComponent, component_timeseries, component_name, named,
  key_in, lookup, build_labels, build_selector_labels,
}
use axonops_operator.Platform.Cluster.{Cluster, Tools, Step, stateful_set, apply_object}
use axonops_operator.Platform.Secrets.{owned}
use axonops_operator.Platform.Workloads.{
  or_else, image_of, pull_policy_of, value, from_field, from_secret, container_port, bash, probe,
  mount, secret_volume, keystore_items, data_claim,
}

unfoldable pub build_timeseries_env :
    String → String → String → String → String → List EnvVar → List EnvVar
build_timeseries_env fqdn org_name heap_size keystore_secret auth_secret extra_env =
    (from_field "POD_IP" "status.podIP"
      ∷ from_field "POD_NAME" "metadata.name"
      ∷ from_field "POD_NAMESPACE" "metadata.namespace"
      ∷ value "AXON_AGENT_ORG" org_name
      ∷ value "CASSANDRA_FQDN" fqdn
      ∷ value "CASSANDRA_HEAP_SIZE" heap_size
      ∷ value "CASSANDRA_KEYSTORE_PATH" "/etc/cassandra/certs/keystore.jks"
      ∷ value "CASSANDRA_TRUSTSTORE_PATH" "/etc/cassandra/certs/truststore.jks"
      ∷ from_secret "CASSANDRA_KEYSTORE_PASSWORD" keystore_secret "password" false
      ∷ from_secret "CASSANDRA_TRUSTSTORE_PASSWORD" keystore_secret "password" false
      ∷ value "CASSANDRA_TLS_KEY_PATH" "/etc/cassandra/certs/tls.key"
      ∷ value "CASSANDRA_TLS_CERT_PATH" "/etc/cassandra/certs/tls.crt"
      ∷ value "CASSANDRA_CA_CERT_PATH" "/etc/cassandra/certs/ca.crt"
      ∷ value "CASSANDRA_INTERNODE_ENCRYPTION" "all"
      ∷ value "CASSANDRA_INTERNODE_CLIENT_AUTH" "true"
      ∷ value "CASSANDRA_INTERNODE_PROTOCOL" "TLS"
      ∷ value "CASSANDRA_CLIENT_ENCRYPTION_ENABLED" "true"
      ∷ value "CASSANDRA_CLIENT_ENCRYPTION_OPTIONAL" "true"
      ∷ value "CASSANDRA_CLIENT_PROTOCOL" "TLS"
      ∷ from_secret "AXONOPS_DB_USER" auth_secret "AXONOPS_DB_USER" false
      ∷ from_secret "AXONOPS_DB_PASSWORD" auth_secret "AXONOPS_DB_PASSWORD" false
      ∷ [])
    ++ extra_env

-- The organisation of the server, or the name of the resource.
unfoldable pub org_name_of : Platform → Option AxonServerComponent → String
org_name_of p none = p.metadata.name
org_name_of p (some srv) = or_else srv.org_name p.metadata.name

unfoldable pub timeseries_mounts : AxonBaseComponent → List VolumeMount
timeseries_mounts ts =
    (mount "data" "/var/lib/cassandra" false ∷ mount "tls-certs" "/etc/cassandra/certs" true ∷ [])
    ++ ts.extra_volume_mounts

unfoldable pub timeseries_volumes : Platform → AxonBaseComponent → List Volume
timeseries_volumes p ts =
    (secret_volume "tls-certs" (named p component_timeseries "-tls") keystore_items ∷ [])
    ++ ts.extra_volumes

unfoldable pub timeseries_container : Tools → Platform → AxonBaseComponent → Container
unfolding image_of build_timeseries_env org_name_of timeseries_mounts
timeseries_container t p ts = record {
  name = "axondb-timeseries";
  image = image_of p ts "ghcr.io/axonops/axondb-timeseries" "5.0.6-1.1.0";
  image_pull_policy = pull_policy_of ts;
  command = [];
  args = [];
  security_context = some (record {
    read_only_root_filesystem = some false;
    run_as_non_root = some true;
    run_as_user = some 999;
    add = [];
    drop = [];
  });
  env =
      build_timeseries_env
        (component_name p component_timeseries
          <> "."
          <> p.metadata.namespace
          <> ".svc.cluster.local")
        (t.to_lower (org_name_of p p.spec.server)) (or_else ts.heap_size "1024M")
        (named p component_timeseries "-keystore-password") (named p component_timeseries "-auth")
        ts.env;
  ports =
      container_port "cql" 9042
      ∷ container_port "jmx" 7199
      ∷ container_port "intra-node" 7000
      ∷ container_port "intra-node-tls" 7001
      ∷ [];
  startup_probe = none;
  liveness_probe = some (probe (bash "/usr/local/bin/healthcheck.sh liveness") 60 30 30 1 5);
  readiness_probe = some (probe (bash "/usr/local/bin/healthcheck.sh readiness") 60 10 30 1 5);
  resources = ts.resources;
  volume_mounts = timeseries_mounts ts;
}

unfoldable pub timeseries_spec : Tools → Platform → AxonBaseComponent → String → StatefulSetSpec
unfolding build_labels build_selector_labels merge_annotations_with_checksum timeseries_container
    timeseries_volumes
timeseries_spec t p ts auth_hash = record {
  replicas = some 1;
  service_name = named p component_timeseries "-headless";
  pod_management_policy = "OrderedReady";
  update_strategy = "RollingUpdate";
  match_labels = build_selector_labels p component_timeseries;
  template = record {
    labels = build_labels p component_timeseries;
    annotations =
        merge_annotations_with_checksum (λ k. lookup k ts.annotations) "checksum/auth" auth_hash;
    spec = record {
      service_account_name = component_name p component_timeseries;
      node_selector = ts.node_selector;
      automount_service_account_token = none;
      termination_grace_period_seconds = none;
      fs_group = some 999;
      run_as_user = none;
      affinity = none;
      init_containers = [];
      containers = timeseries_container t p ts ∷ [];
      volumes = timeseries_volumes p ts;
    };
  };
  volume_claim_templates = data_claim (build_labels p component_timeseries) ts "10Gi" ∷ [];
}

module _ {W : Type 0} (t : Tools) (c : Cluster W) where
  unfoldable pub ensure_timeseries_stateful_set :
      Platform → AxonBaseComponent → String → Step W (Unit {0})
  unfolding apply_object owned build_labels timeseries_spec
  ensure_timeseries_stateful_set p ts auth_hash =
      apply_object c.stateful_sets stateful_set (key_in p (component_name p component_timeseries)) (
        owned t p λ o. record o {
          labels = build_labels p component_timeseries;
          content = record o.content { spec = timeseries_spec t p ts auth_hash };
        })
