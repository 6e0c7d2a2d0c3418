-- ===== src/Platform/Workloads/Ports.antt =====
-- The services, against the pods that they select; and the names of the certificates, against the
-- hosts that the server connects to.
use axonops_operator.Prelude.{
  length, ◌≤◌, ℕ, String, ◌≡◌, refl, Bool, true, false, some, List, [], ◌∷◌, ◌<>◌, ◌==◌, ◌&&◌, ◌||◌,
  nat_eq, ◌⊎◌, inl, inr, Bool-cases, arith,
}
use axonops_operator.K8s.{Key}
use axonops_operator.Platform.Objects.{
  Object, Container, ContainerPort, ServicePort, ServiceSpec, PodTemplate,
}
use axonops_operator.Platform.Types.{
  Platform, AxonBaseComponent, AxonServerComponent, AxonDashboardComponent, lookup,
  component_timeseries, component_search, component_server, component_dashboard, is_search_external,
  is_time_series_external, is_external, component_name, key_in, named, set_entry, build_labels,
  build_selector_labels,
}
use axonops_operator.Platform.Cluster.{Cluster, Tools, Step, service, apply_object}
use axonops_operator.Platform.Secrets.{owned}
use axonops_operator.Platform.Config.{cql_hosts, search_url}
use axonops_operator.Platform.Certificates.{dns_names}
use axonops_operator.Platform.Services.{
  tcp, get_service_ports, headless_spec, cluster_ip_spec, ensure_headless_service, ensure_service,
  ensure_server_agent_service, ensure_server_api_service, tolerate_unready,
}
use axonops_operator.Platform.Password.{nth}
use axonops_operator.Platform.Workloads.Timeseries.{timeseries_spec}
use axonops_operator.Platform.Workloads.Search.{search_spec}
use axonops_operator.Platform.Workloads.Server.{server_spec}
use axonops_operator.Platform.Workloads.Dashboard.{dashboard_spec}

-- A container port of the name, with the number and the protocol of the service's port.
serves : ServicePort → List ContainerPort → Bool
serves s [] = false
serves s (c ∷ cs) =
    c.name == s.target_port && c.protocol == s.protocol && nat_eq c.container_port s.port
    || serves s cs

unfoldable pub ports_served : List ServicePort → List ContainerPort → Bool
unfolding serves
ports_served [] cs = true
ports_served (s ∷ ss) cs = serves s cs && ports_served ss cs

unfoldable pub ports_of : List Container → List ContainerPort
ports_of [] = []
ports_of (c ∷ cs) = c.ports

-- There is a selector and a port, every label of the selector is on the pods, and every port has its
-- target in their container.
abbrev pub Reaches : ServiceSpec → PodTemplate → Type 0
Reaches s pods =
    ((key value : String)
      → lookup key s.selector ≡ some value
      → lookup key pods.labels ≡ some value)
    × (ports_served s.ports (ports_of pods.spec.containers) ≡ true)
    × (1 ≤ length s.selector)
    × (1 ≤ length s.ports)

selector-labels :
    (p : Platform) (component key value : String)
    → lookup key (build_selector_labels p component) ≡ some value
    → lookup key (build_labels p component) ≡ some value
unfolding lookup build_selector_labels build_labels
selector-labels p component key value h = ground arith

-- The step applies one service, with the resource as its owner, and whatever object it finds it
-- changes to one that reaches the pods.
abbrev pub AppliesReaching :
    {W : Type 0} → Tools → Cluster W → Platform → Step W (Unit {0}) → PodTemplate → Type 0
AppliesReaching t c p step pods =
    (key : Key) × (change : Object ServiceSpec → Object ServiceSpec) × (step
      ≡ apply_object c.services service key (owned t p change))
    × ((o : Object ServiceSpec) → Reaches (change o).content pods)

module _ {W : Type 0} (t : Tools) (c : Cluster W) (p : Platform) (hash : String) where
  headless_applies :
      (component : String) (pods : PodTemplate)
      → Reaches (headless_spec p component) pods
      → AppliesReaching t c p (ensure_headless_service t c p component) pods
  unfolding ensure_headless_service
  headless_applies component pods reaches = (
    key_in p (named p component "-headless"),
    λ o. record o {
      labels = build_labels p component;
      annotations = tolerate_unready;
      content = headless_spec p component;
    },
    refl,
    λ o. reaches,
  )

  service_applies :
      (component : String) (pods : PodTemplate)
      → Reaches (cluster_ip_spec p component (get_service_ports component false)) pods
      → AppliesReaching t c p (ensure_service t c p component) pods
  unfolding ensure_service
  service_applies component pods reaches = (
    key_in p (component_name p component),
    λ o. record o {
      labels = build_labels p component;
      content = cluster_ip_spec p component (get_service_ports component false);
    },
    refl,
    λ o. reaches,
  )

  -- The two services of the server, given what they select.
  agent_applies :
      (pods : PodTemplate)
      → Reaches (cluster_ip_spec p component_server (tcp "agent" 1888 ∷ [])) pods
      → AppliesReaching t c p (ensure_server_agent_service t c p) pods
  unfolding ensure_server_agent_service
  agent_applies pods reaches = (
    key_in p (named p component_server "-agent"),
    λ o. record o {
      labels = set_entry "app.kubernetes.io/component" "agent" (build_labels p component_server);
      content = cluster_ip_spec p component_server (tcp "agent" 1888 ∷ []);
    },
    refl,
    λ o. reaches,
  )

  api_applies :
      (pods : PodTemplate)
      → Reaches (cluster_ip_spec p component_server (tcp "api" 8080 ∷ [])) pods
      → AppliesReaching t c p (ensure_server_api_service t c p) pods
  unfolding ensure_server_api_service
  api_applies pods reaches = (
    key_in p (named p component_server "-api"),
    λ o. record o {
      labels = set_entry "app.kubernetes.io/component" "api" (build_labels p component_server);
      content = cluster_ip_spec p component_server (tcp "api" 8080 ∷ []);
    },
    refl,
    λ o. reaches,
  )

  -- Every step that applies a service of the operator applies one that reaches the pods of its
  -- component: the headless services and the services of the databases, the headless service of the
  -- server and its services for the agents and the API, and the service of the dashboard.
  pub services_reach_pods :
      (ts search : AxonBaseComponent) (srv : AxonServerComponent) (dash : AxonDashboardComponent)
      → AppliesReaching t c p
          (ensure_headless_service t c p component_timeseries)
          (timeseries_spec t p ts hash).template
        × AppliesReaching t c p
            (ensure_service t c p component_timeseries)
            (timeseries_spec t p ts hash).template
        × AppliesReaching t c p
            (ensure_headless_service t c p component_search)
            (search_spec p search hash).template
        × AppliesReaching t c p
            (ensure_service t c p component_search)
            (search_spec p search hash).template
        × AppliesReaching t c p
            (ensure_headless_service t c p component_server)
            (server_spec t p srv hash).template
        × AppliesReaching t c p
            (ensure_server_agent_service t c p)
            (server_spec t p srv hash).template
        × AppliesReaching t c p
            (ensure_server_api_service t c p)
            (server_spec t p srv hash).template
        × AppliesReaching t c p
            (ensure_service t c p component_dashboard)
            (dashboard_spec p dash hash).template
  unfolding headless_spec cluster_ip_spec get_service_ports timeseries_spec search_spec server_spec
      dashboard_spec ports_served ports_of
  services_reach_pods ts search srv dash = (
    headless_applies component_timeseries (timeseries_spec t p ts hash).template
        (selector-labels p component_timeseries, refl, omega arith, omega arith),
    service_applies component_timeseries (timeseries_spec t p ts hash).template
        (selector-labels p component_timeseries, refl, omega arith, omega arith),
    headless_applies component_search (search_spec p search hash).template
        (selector-labels p component_search, refl, omega arith, omega arith),
    service_applies component_search (search_spec p search hash).template
        (selector-labels p component_search, refl, omega arith, omega arith),
    headless_applies component_server (server_spec t p srv hash).template
        (selector-labels p component_server, refl, omega arith, omega arith),
    agent_applies (server_spec t p srv hash).template
        (selector-labels p component_server, refl, omega arith, omega arith),
    api_applies (server_spec t p srv hash).template
        (selector-labels p component_server, refl, omega arith, omega arith),
    service_applies component_dashboard (dashboard_spec p dash hash).template
        (selector-labels p component_dashboard, refl, omega arith, omega arith),
  )

search_host :
    (p : Platform) → nth 0 (dns_names p component_search) ≡ some (component_name p component_search)
unfolding dns_names nth
search_host p = refl

search_host_url :
    (p : Platform)
    → is_search_external p ≡ false
    → search_url p ≡ "https://" <> component_name p component_search <> ":9200"
unfolding is_search_external is_external search_url
search_host_url p internal = ground arith

cql_host :
    (p : Platform)
    → is_time_series_external p ≡ false
    → nth 7 (dns_names p component_timeseries) ≡ some (cql_hosts p)
unfolding cql_hosts dns_names nth
cql_host p internal = ground arith

-- Unless the search database is external, the host of its URL in the server's configuration is a
-- name on its certificate; and unless the time series database is, the host that the server is given
-- for it is a name on its certificate.
pub hosts_certified :
    (p : Platform)
    → ((is_search_external p ≡ true)
        ⊎ ((i : ℕ) × (host : String) × (nth i (dns_names p component_search) ≡ some host)
            × (search_url p ≡ "https://" <> host <> ":9200")))
      × ((is_time_series_external p ≡ true)
          ⊎ ((i : ℕ) × (nth i (dns_names p component_timeseries) ≡ some (cql_hosts p))))
hosts_certified p = (
  elim (Bool-cases (is_search_external p)) [
    | inl external ↦ inl external
    | inr internal ↦
        inr (0, component_name p component_search, search_host p, search_host_url p internal)
  ],
  elim (Bool-cases (is_time_series_external p)) [
    | inl external ↦ inl external
    | inr internal ↦ inr (7, cql_host p internal)
  ],
)
