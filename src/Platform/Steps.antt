-- ===== src/Platform/Steps.antt =====
-- How internal/controller/axonopsplatform_controller.go puts a component together, and how it tells
-- whether one is ready.
use axonops_operator.Prelude.{
  ℕ, String, Bool, false, Option, none, some, ◌<>◌, nat_eq, if◌then◌else◌,
}
use axonops_operator.Errors.{ok, err, error_text}
use axonops_operator.K8s.{K8s}
use axonops_operator.Platform.Types.{
  Platform, AxonBaseComponent, AxonServerComponent, AxonDashboardComponent, component_timeseries,
  component_search, component_server, component_dashboard, component_name, key_in, base_enabled,
  server_enabled, is_time_series_external, is_search_external,
}
use axonops_operator.Platform.Cluster.{
  Cluster, Tools, Step, return, throw, annotate, attempt, get_object, ◌>>=◌, ◌>>◌,
}
use axonops_operator.Platform.Services.{
  ensure_service_account, ensure_headless_service, ensure_service, ensure_server_agent_service,
  ensure_server_api_service,
}
use axonops_operator.Platform.Config.{ensure_server_config_secret, ensure_dashboard_config_map}
use axonops_operator.Platform.Workloads.Timeseries.{ensure_timeseries_stateful_set}
use axonops_operator.Platform.Workloads.Search.{ensure_search_stateful_set}
use axonops_operator.Platform.Workloads.Server.{ensure_server_stateful_set}
use axonops_operator.Platform.Workloads.Dashboard.{ensure_dashboard_deployment}
use axonops_operator.Platform.Ingresses.{
  ensure_server_agent_ingress, ensure_server_api_ingress, ensure_server_agent_gateway,
  ensure_server_api_gateway, ensure_dashboard_ingress, ensure_dashboard_gateway,
}

module _ {W : Type 0} (t : Tools) (c : Cluster W) where
  -- What the two databases have in common.
  abbrev database_services : Platform → String → Step W (Unit {0})
  database_services p component = do
    annotate "failed to ensure ServiceAccount" (ensure_service_account t c p component)
    annotate "failed to ensure headless Service" (ensure_headless_service t c p component)
    annotate "failed to ensure Service" (ensure_service t c p component)

  unfoldable pub reconcile_timeseries : Platform → AxonBaseComponent → String → Step W (Unit {0})
  unfolding ensure_service_account ensure_headless_service ensure_service
      ensure_timeseries_stateful_set
  reconcile_timeseries p ts auth_hash = do
    database_services p component_timeseries
    annotate "failed to ensure StatefulSet" (ensure_timeseries_stateful_set t c p ts auth_hash)

  unfoldable pub reconcile_search : Platform → AxonBaseComponent → String → Step W (Unit {0})
  unfolding ensure_service_account ensure_headless_service ensure_service ensure_search_stateful_set
  reconcile_search p search auth_hash = do
    database_services p component_search
    annotate "failed to ensure StatefulSet" (ensure_search_stateful_set t c p search auth_hash)

  abbrev when : Bool → String → Step W (Unit {0}) → Step W (Unit {0})
  when enabled what step =
      if enabled then annotate ("failed to ensure " <> what) step else return tt

  unfoldable pub reconcile_server : Platform → AxonServerComponent → Step W (Unit {0})
  unfolding ensure_service_account ensure_headless_service ensure_server_agent_service
      ensure_server_api_service ensure_server_config_secret ensure_server_stateful_set
      ensure_server_agent_ingress ensure_server_api_ingress ensure_server_agent_gateway
      ensure_server_api_gateway
  reconcile_server p srv = do
    annotate "failed to ensure ServiceAccount" (ensure_service_account t c p component_server)
    annotate "failed to ensure headless Service" (ensure_headless_service t c p component_server)
    annotate "failed to ensure Agent Service" (ensure_server_agent_service t c p)
    annotate "failed to ensure API Service" (ensure_server_api_service t c p)
    config_hash ← annotate "failed to ensure Config Secret" (ensure_server_config_secret t c p srv)
    annotate "failed to ensure StatefulSet" (ensure_server_stateful_set t c p srv config_hash)
    when srv.agent_ingress.enabled "Agent Ingress" (ensure_server_agent_ingress t c p srv)
    when srv.api_ingress.enabled "API Ingress" (ensure_server_api_ingress t c p srv)
    when srv.agent_gateway.enabled "Agent Gateway" (ensure_server_agent_gateway t c p srv)
    when srv.api_gateway.enabled "API Gateway" (ensure_server_api_gateway t c p srv)

  unfoldable pub reconcile_dashboard : Platform → AxonDashboardComponent → Step W (Unit {0})
  unfolding ensure_service_account ensure_service ensure_dashboard_config_map
      ensure_dashboard_deployment ensure_dashboard_ingress ensure_dashboard_gateway
  reconcile_dashboard p dash = do
    annotate "failed to ensure ServiceAccount" (ensure_service_account t c p component_dashboard)
    annotate "failed to ensure Service" (ensure_service t c p component_dashboard)
    config_hash ← annotate "failed to ensure ConfigMap" (ensure_dashboard_config_map t c p)
    annotate "failed to ensure Deployment" (ensure_dashboard_deployment t c p dash config_hash)
    when dash.ingress.enabled "Ingress" (ensure_dashboard_ingress t c p dash)
    when dash.gateway.enabled "Gateway" (ensure_dashboard_gateway t c p dash)

-- Whether all the replicas that a stateful set asks for are ready; none is never ready.
unfoldable pub replicas_ready : Option ℕ → ℕ → Bool
replicas_ready none ready = false
replicas_ready (some n) ready = if nat_eq n 0 then false else nat_eq ready n

module _ {W : Type 0} (k : K8s) (c : Cluster W) where
  unfoldable pub is_stateful_set_ready : Platform → String → Step W Bool
  unfolding get_object replicas_ready
  is_stateful_set_ready p name = do
    got ← attempt (get_object c.stateful_sets (key_in p name))
    elim got [
      | err e ↦ if k.is_not_found e then return false else throw e
      | ok o ↦ return (replicas_ready o.content.spec.replicas o.content.ready_replicas)
    ]

  -- The last part of `isComponentReady`: ready is `none`, otherwise it is the reason.
  unfoldable pub workload_ready : Platform → String → Step W (Option String)
  unfolding is_stateful_set_ready error_text
  workload_ready p component = do
    got ← attempt (is_stateful_set_ready p (component_name p component))
    elim got [
      | err e ↦ return (some ("Failed to check " <> component <> " readiness: " <> error_text e))
      | ok ready ↦
          return (if ready then none else some ("Waiting for " <> component <> " to become ready"))
    ]

  -- `isComponentReady` of the three components that have a stateful set
  unfoldable pub time_series_ready : Platform → Step W (Option String)
  unfolding base_enabled is_time_series_external workload_ready
  time_series_ready p =
      if base_enabled p.spec.time_series
      then if is_time_series_external p then return none else workload_ready p component_timeseries
      else return none

  unfoldable pub search_ready : Platform → Step W (Option String)
  unfolding base_enabled is_search_external workload_ready
  search_ready p =
      if base_enabled p.spec.search
      then if is_search_external p then return none else workload_ready p component_search
      else return none

  unfoldable pub server_ready : Platform → Step W (Option String)
  unfolding server_enabled workload_ready
  server_ready p =
      if server_enabled p.spec.server then workload_ready p component_server else return none
