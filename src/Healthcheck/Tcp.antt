-- ===== src/Healthcheck/Tcp.antt =====
-- internal/controller/alerts/axonopshealthchecktcp_controller.go and
-- api/alerts/v1alpha1/axonopshealthchecktcp_types.go: what is proper to TCP healthchecks.
use axonops_operator.Prelude.{String, refl, Bool, Option, List}
use axonops_operator.K8s.{Key, K8s, Outcome}
use axonops_operator.Http.{Std, Env, M}
use axonops_operator.Client.Healthcheck.Records.{HealthcheckTcp}
use axonops_operator.Healthcheck.{Healthcheck, Kind, IsLawful, no_integrations}
use axonops_operator.Healthcheck.Steps

-- A `none` is a nil slice.
pub record TcpSpec : Type 0 where
  pub connection_ref : String
  pub cluster_name : String
  pub cluster_type : String
  pub name : String
  pub tcp : String
  pub interval : String
  pub timeout : String
  pub readonly : Bool
  pub supported_agent_types : Option (List String)

unfoldable pub tcp_entry : Healthcheck TcpSpec → HealthcheckTcp
tcp_entry h = record {
  id = h.status.synced_healthcheck_id;
  name = h.spec.name;
  tcp = h.spec.tcp;
  interval = h.spec.interval;
  timeout = h.spec.timeout;
  readonly = h.spec.readonly;
  supported_agent_types = h.spec.supported_agent_types;
  integrations = no_integrations;
}

unfoldable pub tcp_kind : Kind TcpSpec HealthcheckTcp
unfolding tcp_entry
tcp_kind = record {
  connection_ref = λ s. s.connection_ref;
  cluster_name = λ s. s.cluster_name;
  cluster_type = λ s. s.cluster_type;
  build_healthcheck_entry = tcp_entry;
  id_of = λ e. e.id;
  set_id = λ id e. record e { id = id };
  checks = λ p. p.tcp_checks;
  with_checks = λ l p. record p { tcp_checks = l };
  finalizer = "alerts.axonops.com/tcp-healthcheck-finalizer";
  drift_message = "TCP healthcheck was deleted externally; recreating";
  controller = "axonopshealthchecktcp";
}

pub tcp_kind-IsLawful : IsLawful tcp_kind
unfolding tcp_kind
tcp_kind-IsLawful = record {
  id-build = λ h. refl;
  id-set_id = λ id e. refl;
  checks-with_checks = λ l p. refl;
  with_checks-checks = λ p. refl;
  with_checks-with_checks = λ l m p. refl;
}

module _ {W : Type 0} (k : K8s) (std : Std) (env : Env W (Healthcheck TcpSpec)) where
  unfoldable pub reconcile_tcp : Key → M W (Healthcheck TcpSpec) Outcome
  unfolding Steps.reconcile tcp_kind
  reconcile_tcp = Steps.reconcile tcp_kind k std env

  unfoldable pub delete_tcp : Healthcheck TcpSpec → M W (Healthcheck TcpSpec) Outcome
  unfolding Steps.handle_deletion tcp_kind
  delete_tcp = Steps.handle_deletion tcp_kind k std env
