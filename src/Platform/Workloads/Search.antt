-- ===== src/Platform/Workloads/Search.antt =====
-- `ensureSearchStatefulSet` and `buildSearchEnv` of
-- internal/controller/axonopsplatform_controller.go.
use axonops_operator.Prelude.{
  String, true, false, Option, none, some, List, [], ◌∷◌, ◌++◌, ◌<>◌, ◌==◌, if◌then◌else◌,
}
use axonops_operator.ConfigHash.{merge_annotations_with_checksum}
use axonops_operator.Platform.Objects.{
  EnvVar, Volume, VolumeMount, Container, AntiAffinity, StatefulSetSpec,
}
use axonops_operator.Platform.Types.{
  Platform, AxonBaseComponent, component_search, component_name, named, key_in, lookup,
  build_labels, build_selector_labels,
}
use axonops_operator.Platform.Cluster.{Cluster, Tools, Step, stateful_set, apply_object}
use axonops_operator.Platform.Secrets.{owned}
use axonops_operator.Platform.Workloads.{
  or_else, image_of, pull_policy_of, value, from_field, from_secret, container_port, bash, probe,
  mount, secret_volume, keystore_items, data_claim, chown_container,
}

unfoldable pub build_search_env :
    String → String → String → String → String → String → List EnvVar → List EnvVar
build_search_env fqdn headless cluster_name heap_size keystore_secret auth_secret extra_env =
    (value "bootstrap.memory_lock" "false"
      ∷ from_field "node.name" "metadata.name"
      ∷ value "OPENSEARCH_FQDN" fqdn
      ∷ value "discovery.seed_hosts" headless
      ∷ value "cluster.name" cluster_name
      ∷ value "network.host" "0.0.0.0"
      ∷ value "OPENSEARCH_HEAP_SIZE" heap_size
      ∷ value "node.roles" "master,ingest,data,remote_cluster_client,"
      ∷ value "OPENSEARCH_JAVA_OPTS" ""
      ∷ value "discovery.type" "single-node"
      ∷ value "GENERATE_CERTS_ON_STARTUP" "false"
      ∷ value "OPENSEARCH_KEYSTORE_PATH" "/etc/opensearch/certs/keystore.jks"
      ∷ value "OPENSEARCH_TRUSTSTORE_PATH" "/etc/opensearch/certs/truststore.jks"
      ∷ from_secret "OPENSEARCH_KEYSTORE_PASSWORD" keystore_secret "password" false
      ∷ from_secret "OPENSEARCH_TRUSTSTORE_PASSWORD" keystore_secret "password" false
      ∷ value "OPENSEARCH_TLS_KEY_PATH" "/etc/opensearch/certs/tls.key"
      ∷ value "OPENSEARCH_TLS_CERT_PATH" "/etc/opensearch/certs/tls.crt"
      ∷ value "OPENSEARCH_CA_CERT_PATH" "/etc/opensearch/certs/ca.crt"
      ∷ from_secret "AXONOPS_SEARCH_PASSWORD" auth_secret "AXONOPS_SEARCH_PASSWORD" false
      ∷ from_secret "AXONOPS_SEARCH_USER" auth_secret "AXONOPS_SEARCH_USER" false
      ∷ [])
    ++ extra_env

unfoldable pub search_mounts : AxonBaseComponent → List VolumeMount
search_mounts search =
    (mount "data" "/usr/share/opensearch/data" false
      ∷ mount "tls-certs" "/etc/opensearch/certs" true
      ∷ [])
    ++ search.extra_volume_mounts

unfoldable pub search_volumes : Platform → AxonBaseComponent → List Volume
search_volumes p search =
    (secret_volume "tls-certs" (named p component_search "-tls") keystore_items ∷ [])
    ++ search.extra_volumes

unfoldable pub search_container : Platform → AxonBaseComponent → Container
unfolding image_of build_search_env search_mounts
search_container p search = record {
  name = "axondb-search";
  image = image_of p search "ghcr.io/axonops/axondb-search" "3.3.2-1.5.0";
  image_pull_policy = pull_policy_of search;
  command = [];
  args = [];
  security_context = some (record {
    read_only_root_filesystem = none;
    run_as_non_root = some true;
    run_as_user = some 999;
    add = "IPC_LOCK" ∷ [];
    drop = [];
  });
  env =
      build_search_env
        (component_name p component_search <> "." <> p.metadata.namespace <> ".svc.cluster.local")
        (named p component_search "-headless") (component_name p component_search <> "-cluster")
        (or_else search.heap_size "2g") (named p component_search "-keystore-password")
        (named p component_search "-auth") search.env;
  ports =
      container_port "http" 9200
      ∷ container_port "transport" 9300
      ∷ container_port "metrics" 9600
      ∷ [];
  startup_probe = some (probe (bash "/usr/local/bin/healthcheck.sh startup") 20 10 3 0 30);
  liveness_probe = some (probe (bash "/usr/local/bin/healthcheck.sh readiness") 30 20 5 1 10);
  readiness_probe = some (probe (bash "/usr/local/bin/healthcheck.sh readiness") 0 5 3 0 3);
  resources = search.resources;
  volume_mounts = search_mounts search;
}

unfoldable pub search_affinity : Platform → AntiAffinity
search_affinity p = record {
  weight = 1;
  topology_key = "kubernetes.io/hostname";
  match_expressions =
      ("app.kubernetes.io/instance", p.metadata.name ∷ [])
      ∷ ("app.kubernetes.io/name", "axonops" ∷ [])
      ∷ [];
}

unfoldable pub search_spec : Platform → AxonBaseComponent → String → StatefulSetSpec
unfolding build_labels build_selector_labels merge_annotations_with_checksum search_container
    search_volumes search_affinity chown_container
search_spec p search auth_hash = record {
  replicas = some 1;
  service_name = named p component_search "-headless";
  pod_management_policy = "Parallel";
  update_strategy = "RollingUpdate";
  match_labels = build_selector_labels p component_search;
  template = record {
    labels = build_labels p component_search;
    annotations =
        merge_annotations_with_checksum (λ k. lookup k search.annotations) "checksum/auth"
          auth_hash;
    spec = record {
      service_account_name = component_name p component_search;
      node_selector = search.node_selector;
      automount_service_account_token = some false;
      termination_grace_period_seconds = some 120;
      fs_group = some 999;
      run_as_user = some 999;
      affinity = some (search_affinity p);
      init_containers =
          chown_container p "chown -R 999:999 /var/lib/opensearch" "/var/lib/opensearch" ∷ [];
      containers = search_container p search ∷ [];
      volumes = search_volumes p search;
    };
  };
  volume_claim_templates = data_claim (build_labels p component_search) search "10Gi" ∷ [];
}

abbrev major_version : String → Option String
major_version key = if "majorVersion" == key then some "3" else none

module _ {W : Type 0} (t : Tools) (c : Cluster W) where
  unfoldable pub ensure_search_stateful_set :
      Platform → AxonBaseComponent → String → Step W (Unit {0})
  unfolding apply_object owned build_labels search_spec
  ensure_search_stateful_set p search auth_hash =
      apply_object c.stateful_sets stateful_set (key_in p (component_name p component_search)) (
        owned t p λ o. record o {
          labels = build_labels p component_search;
          annotations = major_version;
          content = record o.content { spec = search_spec p search auth_hash };
        })
