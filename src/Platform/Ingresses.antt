-- ===== src/Platform/Ingresses.antt =====
-- How the components are reached from outside the cluster, in
-- internal/controller/axonopsplatform_controller.go: ingresses, gateways and their routes.
pub mod Routes
use axonops_operator.Prelude.{
  ℕ, String, Option, none, some, List, [], ◌∷◌, ◌<>◌, ◌==◌, map, nat_eq, ltb, if◌then◌else◌,
}
use axonops_operator.Platform.Objects.{
  IngressRule, IngressSpec, HttpRouteSpec, GatewaySpec, Listener,
}
use axonops_operator.Platform.Types.{
  Platform, Ingress, GatewayConfig, AxonServerComponent, AxonDashboardComponent, component_server,
  component_dashboard, component_name, named, key_in, lookup, build_labels, copy_entries,
}
use axonops_operator.Platform.Cluster.{
  Cluster, Tools, Step, ingress, http_route, gateway, apply_object, ◌>>=◌, ◌>>◌,
}
use axonops_operator.Platform.Secrets.{owned}

abbrev or_else : String → String → String
or_else x d = if x == "" then d else x

unfoldable pub ingress_rule : Ingress → String → ℕ → String → IngressRule
ingress_rule i service_name default_port host = record {
  host = host;
  paths =
      record {
        path = or_else i.path "/";
        path_type = or_else i.path_type "Prefix";
        service_name = or_else i.service_name service_name;
        service_port = if ltb 0 i.service_port then i.service_port else default_port;
      }
      ∷ [];
}

unfoldable pub ingress_spec : Ingress → String → ℕ → IngressSpec → IngressSpec
unfolding ingress_rule
ingress_spec i service_name default_port old = record {
  ingress_class_name =
      if i.ingress_class_name == "" then old.ingress_class_name else some i.ingress_class_name;
  rules = map (ingress_rule i service_name default_port) i.hosts;
  tls = i.tls;
}

abbrev pub port_or : ℕ → ℕ → ℕ
port_or port d = if nat_eq port 0 then d else port

-- The name of the gateway that a route is attached to.
unfoldable pub parent_gateway : Platform → String → String
parent_gateway p component = named p component "-gateway"

unfoldable pub http_route_spec :
    Platform → String → ℕ → String → GatewayConfig → HttpRouteSpec → HttpRouteSpec
unfolding parent_gateway
http_route_spec p service_name service_port component g old = record {
  parent_refs = record { name = parent_gateway p component; namespace = p.metadata.namespace } ∷ [];
  hostnames = if g.hostname == "" then old.hostnames else g.hostname ∷ [];
  rules = (record { name = service_name; port = port_or g.port service_port } ∷ []) ∷ [];
}

unfoldable pub listener_of : ℕ → String → GatewayConfig → Listener
listener_of default_port component g = record {
  name = component;
  port = port_or g.port default_port;
  protocol = if nat_eq (port_or g.port default_port) 443 then "HTTPS" else "HTTP";
  hostname = if g.hostname == "" then none else some g.hostname;
}

unfoldable pub gateway_spec : ℕ → String → GatewayConfig → GatewaySpec
unfolding listener_of
gateway_spec default_port component g = record {
  gateway_class_name = g.gateway_class_name;
  listeners = listener_of default_port component g ∷ [];
}

module _ {W : Type 0} (t : Tools) (c : Cluster W) where
  unfoldable pub ensure_ingress :
      Platform → String → String → ℕ → String → Ingress → Step W (Unit {0})
  unfolding apply_object owned build_labels copy_entries ingress_spec lookup
  ensure_ingress p name service_name default_port component i =
      apply_object c.ingresses ingress (key_in p name) (
        owned t p λ o. record o {
          labels = copy_entries (build_labels p component) i.labels;
          annotations = λ k. lookup k i.annotations;
          content = ingress_spec i service_name default_port o.content;
        })

  unfoldable pub ensure_http_route :
      Platform → String → String → ℕ → String → GatewayConfig → Step W (Unit {0})
  unfolding apply_object owned build_labels copy_entries http_route_spec lookup
  ensure_http_route p name service_name service_port component g =
      apply_object c.http_routes http_route (key_in p name) (
        owned t p λ o. record o {
          labels = copy_entries (build_labels p component) g.labels;
          annotations = λ k. lookup k g.annotations;
          content = http_route_spec p service_name service_port component g o.content;
        })

  unfoldable pub ensure_gateway : Platform → String → ℕ → String → GatewayConfig → Step W (Unit {0})
  unfolding apply_object owned build_labels copy_entries gateway_spec lookup
  ensure_gateway p name default_port component g = apply_object c.gateways gateway (key_in p name) (
      owned t p λ o. record o {
        labels = copy_entries (build_labels p component) g.labels;
        annotations = λ k. lookup k g.annotations;
        content = gateway_spec default_port component g;
      })

  unfoldable pub ensure_dashboard_ingress : Platform → AxonDashboardComponent → Step W (Unit {0})
  unfolding ensure_ingress
  ensure_dashboard_ingress p dash =
      ensure_ingress p (component_name p component_dashboard) (component_name p component_dashboard)
        3000 component_dashboard dash.ingress

  unfoldable pub ensure_server_agent_ingress : Platform → AxonServerComponent → Step W (Unit {0})
  unfolding ensure_ingress
  ensure_server_agent_ingress p srv =
      ensure_ingress p (named p component_server "-agent") (named p component_server "-agent") 1888
        component_server srv.agent_ingress

  unfoldable pub ensure_server_api_ingress : Platform → AxonServerComponent → Step W (Unit {0})
  unfolding ensure_ingress
  ensure_server_api_ingress p srv =
      ensure_ingress p (named p component_server "-api") (named p component_server "-api") 8080
        component_server srv.api_ingress

  unfoldable pub ensure_dashboard_gateway : Platform → AxonDashboardComponent → Step W (Unit {0})
  unfolding ensure_gateway ensure_http_route
  ensure_dashboard_gateway p dash = do
    ensure_gateway p (named p component_dashboard "-gateway") 3000 component_dashboard dash.gateway
    ensure_http_route p (named p component_dashboard "-route")
        (component_name p component_dashboard) 3000 component_dashboard dash.gateway

  unfoldable pub ensure_server_agent_gateway : Platform → AxonServerComponent → Step W (Unit {0})
  unfolding ensure_gateway ensure_http_route
  ensure_server_agent_gateway p srv = do
    ensure_gateway p (named p component_server "-agent-gateway") 1888 component_server
        srv.agent_gateway
    ensure_http_route p (named p component_server "-agent-route")
        (named p component_server "-agent") 1888 component_server srv.agent_gateway

  unfoldable pub ensure_server_api_gateway : Platform → AxonServerComponent → Step W (Unit {0})
  unfolding ensure_gateway ensure_http_route
  ensure_server_api_gateway p srv = do
    ensure_gateway p (named p component_server "-api-gateway") 8080 component_server srv.api_gateway
    ensure_http_route p (named p component_server "-api-route") (named p component_server "-api")
        8080 component_server srv.api_gateway
