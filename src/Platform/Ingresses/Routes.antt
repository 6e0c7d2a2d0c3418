-- ===== src/Platform/Ingresses/Routes.antt =====
-- The routes and the gateways that they are attached to.
use text.Mathlib.TextLemmas.{append_cancel_left}
use mathlib.Core.Bool.{false≢true}
use axonops_operator.Prelude.{ℕ, String, ◌≡◌, ◌≢◌, refl, [], ◌∷◌, ◌<>◌, eq_iff}
use axonops_operator.Platform.Objects.{Object, HttpRouteSpec, GatewaySpec}
use axonops_operator.Platform.Secrets.{owned}
use axonops_operator.Platform.Types.{
  GatewayConfig, component_name, copy_entries, build_labels, lookup, Platform, AxonServerComponent,
  AxonDashboardComponent, component_server, component_dashboard, key_in, named,
}
use axonops_operator.Platform.Cluster.{
  Cluster, Tools, Step, gateway, http_route, apply_object, ◌>>◌,
}
use axonops_operator.Platform.Ingresses.{
  parent_gateway, http_route_spec, gateway_spec, ensure_gateway, ensure_http_route,
  ensure_dashboard_gateway, ensure_server_agent_gateway, ensure_server_api_gateway,
}

-- The step applies the gateway and then the route, with the resource as the owner of both, and
-- whatever route it finds it makes the given name its one parent.
abbrev pub AppliesRoute :
    {W : Type 0}
    → Tools
    → Cluster W
    → Platform
    → Step W (Unit {0})
    → String
    → String
    → String
    → Type 0
AppliesRoute t c p step gateway_name route_name parent =
    (of_gateway : Object GatewaySpec → Object GatewaySpec) × (of_route : Object HttpRouteSpec
      → Object HttpRouteSpec)
    × (step ≡ (
        apply_object c.gateways gateway (key_in p gateway_name) (owned t p of_gateway)
        >> apply_object c.http_routes http_route (key_in p route_name) (owned t p of_route)))
    × ((o : Object HttpRouteSpec)
        → (of_route o).content.parent_refs
          ≡ record { name = parent; namespace = p.metadata.namespace } ∷ [])

agent-ne : ◌≢◌ {A = String} "-gateway" "-agent-gateway"
agent-ne e = false≢true ((eq_iff "-gateway" "-agent-gateway").1 e)

api-ne : ◌≢◌ {A = String} "-gateway" "-api-gateway"
api-ne e = false≢true ((eq_iff "-gateway" "-api-gateway").1 e)

module _ {W : Type 0} (t : Tools) (c : Cluster W) (p : Platform) where
  gateway_then_route :
      (gateway_name route_name service_name component : String) (port : ℕ) (g : GatewayConfig)
      → AppliesRoute t c p
          (ensure_gateway t c p gateway_name port component g
            >> ensure_http_route t c p route_name service_name port component g)
          gateway_name
          route_name
          (named p component "-gateway")
  unfolding ensure_gateway ensure_http_route http_route_spec parent_gateway
  gateway_then_route gateway_name route_name service_name component port g = (
    λ o. record o {
      labels = copy_entries (build_labels p component) g.labels;
      annotations = λ k. lookup k g.annotations;
      content = gateway_spec port component g;
    },
    λ o. record o {
      labels = copy_entries (build_labels p component) g.labels;
      annotations = λ k. lookup k g.annotations;
      content = http_route_spec p service_name port component g o.content;
    },
    refl,
    λ o. refl,
  )

  -- Each of the three steps for a gateway applies the gateway and then a route. The route of the
  -- dashboard has the gateway that was applied as its parent, but the parent of the routes of the
  -- agents and of the API is neither of the two gateways of the server.
  pub gateway_routes_parents :
      (dash : AxonDashboardComponent) (srv : AxonServerComponent)
      → AppliesRoute t c p
          (ensure_dashboard_gateway t c p dash)
          (named p component_dashboard "-gateway")
          (named p component_dashboard "-route")
          (named p component_dashboard "-gateway")
        × AppliesRoute t c p
            (ensure_server_agent_gateway t c p srv)
            (named p component_server "-agent-gateway")
            (named p component_server "-agent-route")
            (named p component_server "-gateway")
        × AppliesRoute t c p
            (ensure_server_api_gateway t c p srv)
            (named p component_server "-api-gateway")
            (named p component_server "-api-route")
            (named p component_server "-gateway")
        × (named p component_server "-gateway" ≢ named p component_server "-agent-gateway")
        × (named p component_server "-gateway" ≢ named p component_server "-api-gateway")
  unfolding ensure_dashboard_gateway ensure_server_agent_gateway ensure_server_api_gateway
  gateway_routes_parents dash srv = (
    gateway_then_route (named p component_dashboard "-gateway")
        (named p component_dashboard "-route") (component_name p component_dashboard)
        component_dashboard 3000 dash.gateway,
    gateway_then_route (named p component_server "-agent-gateway")
        (named p component_server "-agent-route") (named p component_server "-agent")
        component_server 1888 srv.agent_gateway,
    gateway_then_route (named p component_server "-api-gateway")
        (named p component_server "-api-route") (named p component_server "-api") component_server
        8080 srv.api_gateway,
    λ e. agent-ne (suffix "-agent-gateway" e),
    λ e. api-ne (suffix "-api-gateway" e),
  )
    where
      suffix :
          (x : String)
          → named p component_server "-gateway" ≡ named p component_server x
          → ◌≡◌ {A = String} "-gateway" x
      suffix x e = append_cancel_left component_server "-gateway" x (
          append_cancel_left "-" (component_server <> "-gateway") (component_server <> x) (
            append_cancel_left p.metadata.name ("-" <> component_server <> "-gateway")
              ("-" <> component_server <> x) e))
