-- ===== src/Platform/Services.antt =====
-- The service accounts and services of internal/controller/axonopsplatform_controller.go.
use axonops_operator.Prelude.{
  ℕ, String, Bool, true, false, Option, none, some, List, [], ◌∷◌, ◌==◌, if◌then◌else◌,
}
use axonops_operator.Platform.Objects.{ServicePort, ServiceSpec}
use axonops_operator.Platform.Types.{
  Platform, component_timeseries, component_search, component_server, component_dashboard, key_in,
  named, component_name, build_labels, build_selector_labels, set_entry,
}
use axonops_operator.Platform.Cluster.{Cluster, Tools, Step, service_account, service, apply_object}
use axonops_operator.Platform.Secrets.{owned}

-- A TCP port with the name of its target port.
abbrev pub tcp : String → ℕ → ServicePort
tcp name port = record { name = name; port = port; target_port = name; protocol = "TCP" }

unfoldable pub get_service_ports : String → Bool → List ServicePort
get_service_ports component headless =
    if component == component_search
    then tcp "http" 9200 ∷ tcp "transport" 9300 ∷ tcp "metrics" 9600 ∷ []
    else if component == component_timeseries
    then if headless then tcp "cql" 9042 ∷ [] else tcp "cql" 9042 ∷ tcp "jmx" 7199 ∷ []
    else if component == component_server
    then tcp "api" 8080 ∷ tcp "agent" 1888 ∷ []
    else if component == component_dashboard
    then tcp "http" 3000 ∷ []
    else []

unfoldable pub headless_spec : Platform → String → ServiceSpec
unfolding build_selector_labels get_service_ports
headless_spec p component = record {
  type = "ClusterIP";
  cluster_ip = "None";
  publish_not_ready_addresses = true;
  selector = build_selector_labels p component;
  ports = get_service_ports component true;
}

-- A service with a cluster IP of its own.
unfoldable pub cluster_ip_spec : Platform → String → List ServicePort → ServiceSpec
unfolding build_selector_labels
cluster_ip_spec p component ports = record {
  type = "ClusterIP";
  cluster_ip = "";
  publish_not_ready_addresses = false;
  selector = build_selector_labels p component;
  ports = ports;
}

abbrev pub tolerate_unready : String → Option String
tolerate_unready key =
    if "service.alpha.kubernetes.io/tolerate-unready-endpoints" == key then some "true" else none

module _ {W : Type 0} (t : Tools) (c : Cluster W) where
  unfoldable pub ensure_service_account : Platform → String → Step W (Unit {0})
  unfolding apply_object owned build_labels
  ensure_service_account p component =
      apply_object c.service_accounts service_account (key_in p (component_name p component))
        (owned t p λ o. record o { labels = build_labels p component; content = some false })

  unfoldable pub ensure_headless_service : Platform → String → Step W (Unit {0})
  unfolding apply_object owned build_labels headless_spec
  ensure_headless_service p component =
      apply_object c.services service (key_in p (named p component "-headless")) (
        owned t p λ o. record o {
          labels = build_labels p component;
          annotations = tolerate_unready;
          content = headless_spec p component;
        })

  unfoldable pub ensure_service : Platform → String → Step W (Unit {0})
  unfolding apply_object owned build_labels cluster_ip_spec get_service_ports
  ensure_service p component =
      apply_object c.services service (key_in p (component_name p component)) (
        owned t p λ o. record o {
          labels = build_labels p component;
          content = cluster_ip_spec p component (get_service_ports component false);
        })

  unfoldable pub ensure_server_agent_service : Platform → Step W (Unit {0})
  unfolding apply_object owned build_labels set_entry cluster_ip_spec
  ensure_server_agent_service p =
      apply_object c.services service (key_in p (named p component_server "-agent")) (
        owned t p λ o. record o {
          labels =
              set_entry "app.kubernetes.io/component" "agent" (build_labels p component_server);
          content = cluster_ip_spec p component_server (tcp "agent" 1888 ∷ []);
        })

  unfoldable pub ensure_server_api_service : Platform → Step W (Unit {0})
  unfolding apply_object owned build_labels set_entry cluster_ip_spec
  ensure_server_api_service p =
      apply_object c.services service (key_in p (named p component_server "-api")) (
        owned t p λ o. record o {
          labels = set_entry "app.kubernetes.io/component" "api" (build_labels p component_server);
          content = cluster_ip_spec p component_server (tcp "api" 8080 ∷ []);
        })
