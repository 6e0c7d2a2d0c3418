-- ===== src/Healthcheck/Http.antt =====
-- internal/controller/alerts/axonopshealthcheckhttp_controller.go and
-- api/alerts/v1alpha1/axonopshealthcheckhttp_types.go: what is proper to HTTP healthchecks.
use axonops_operator.Prelude.{String, refl, Bool, Option, some, List, [], ◌∷◌, ◌<>◌}
use axonops_operator.K8s.{Key, K8s, Outcome}
use axonops_operator.Http.{ℤ, Std, Env, M}
use axonops_operator.Client.Healthcheck.Records.{HealthcheckHttp}
use axonops_operator.Healthcheck.{Healthcheck, Kind, IsLawful, no_integrations}
use axonops_operator.Healthcheck.Steps

-- `headers` is the map, in the order in which a run ranges over it. The other `none` is a nil slice.
pub record HttpSpec : Type 0 where
  pub connection_ref : String
  pub cluster_name : String
  pub cluster_type : String
  pub name : String
  pub url : String
  pub method : String
  pub headers : List (String × String)
  pub body : String
  pub expected_status : ℤ
  pub interval : String
  pub timeout : String
  pub readonly : Bool
  pub tls_skip_verify : Bool
  pub supported_agent_types : Option (List String)

unfoldable pub header_lines : List (String × String) → List String
header_lines [] = []
header_lines ((k, v) ∷ hs) = (k <> ": " <> v) ∷ header_lines hs

unfoldable pub http_entry : Healthcheck HttpSpec → HealthcheckHttp
unfolding header_lines
http_entry h = record {
  id = h.status.synced_healthcheck_id;
  name = h.spec.name;
  http = h.spec.url;
  method = h.spec.method;
  headers = some (header_lines h.spec.headers);
  body = h.spec.body;
  expected_status = h.spec.expected_status;
  interval = h.spec.interval;
  timeout = h.spec.timeout;
  readonly = h.spec.readonly;
  tls_skip_verify = h.spec.tls_skip_verify;
  supported_agent_types = h.spec.supported_agent_types;
  integrations = no_integrations;
}

unfoldable pub http_kind : Kind HttpSpec HealthcheckHttp
unfolding http_entry
http_kind = record {
  connection_ref = λ s. s.connection_ref;
  cluster_name = λ s. s.cluster_name;
  cluster_type = λ s. s.cluster_type;
  build_healthcheck_entry = http_entry;
  id_of = λ e. e.id;
  set_id = λ id e. record e { id = id };
  checks = λ p. p.http_checks;
  with_checks = λ l p. record p { http_checks = l };
  finalizer = "alerts.axonops.com/http-healthcheck-finalizer";
  drift_message = "HTTP healthcheck was deleted externally; recreating";
  controller = "axonopshealthcheckhttp";
}

pub http_kind-IsLawful : IsLawful http_kind
unfolding http_kind
http_kind-IsLawful = record {
  id-build = λ h. refl;
  id-set_id = λ id e. refl;
  checks-with_checks = λ l p. refl;
  with_checks-checks = λ p. refl;
  with_checks-with_checks = λ l m p. refl;
}

module _ {W : Type 0} (k : K8s) (std : Std) (env : Env W (Healthcheck HttpSpec)) where
  unfoldable pub reconcile_http : Key → M W (Healthcheck HttpSpec) Outcome
  unfolding Steps.reconcile http_kind
  reconcile_http = Steps.reconcile http_kind k std env

  unfoldable pub delete_http : Healthcheck HttpSpec → M W (Healthcheck HttpSpec) Outcome
  unfolding Steps.handle_deletion http_kind
  delete_http = Steps.handle_deletion http_kind k std env
