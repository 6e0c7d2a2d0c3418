-- ===== src/Platform/Status.antt =====
-- The conditions that `Reconcile` of internal/controller/axonopsplatform_controller.go sets.
pub mod Conditions
use axonops_operator.Prelude.{
  join, ℕ, String, Bool, true, false, Option, none, some, List, [], ◌∷◌, ◌<>◌, ◌==◌, ◌&&◌, ◌||◌,
  not, is_some, if◌then◌else◌,
}
use axonops_operator.K8s.{Condition, K8s}
use axonops_operator.Platform.Types.{
  Platform, AxonBaseComponent, base_enabled, server_enabled, is_external, is_search_external,
  is_time_series_external,
}
use axonops_operator.Platform.Config.{is_verified}

-- A condition of a platform at its generation.
abbrev pub condition_at : Platform → String → String → String → String → Condition
condition_at p type status reason message = record {
  type = type;
  status = status;
  observed_generation = p.metadata.generation;
  reason = reason;
  message = message;
}

-- `meta.SetStatusCondition(&server.Status.Conditions, c)`
unfoldable pub with_condition : K8s → Condition → Platform → Platform
with_condition k c p = record p {
  status = record p.status { conditions = k.set_status_condition p.status.conditions c };
}

unfoldable pub without_condition : K8s → String → Platform → Platform
without_condition k type p = record p {
  status = record p.status { conditions = k.remove_status_condition p.status.conditions type };
}

unfoldable pub observed : Platform → Platform
observed p = record p { status = record p.status { observed_generation = p.metadata.generation } }

abbrev pub reconciliation_paused : Condition
reconciliation_paused = record {
  type = "Paused";
  status = "True";
  observed_generation = 0;
  reason = "ReconciliationPaused";
  message = "Reconciliation is paused";
}

-- The platform with a false condition of the given type and its generation observed.
unfoldable pub failed_platform : K8s → String → String → String → Platform → Platform
unfolding with_condition observed
failed_platform k type reason message p =
    observed (with_condition k (condition_at p type "False" reason message) p)

-- The databases that the operator is to run but no server is there to use.
unfoldable pub orphans : Platform → List String
unfolding base_enabled is_time_series_external is_search_external
orphans p =
    let ts = base_enabled p.spec.time_series && not (is_time_series_external p) in
    let search = base_enabled p.spec.search && not (is_search_external p) in
    if ts
    then if search then "timeSeries" ∷ "search" ∷ [] else "timeSeries" ∷ []
    else if search
    then "search" ∷ []
    else []

-- The message for a specification that runs a database without a server.
unfoldable pub invalid_configuration : Platform → Option String
unfolding server_enabled orphans join
invalid_configuration p = if server_enabled p.spec.server then none else elim (orphans p) [
  | [] ↦ none
  | o ∷ os ↦ some ("spec.server must be configured when " <> join " and " (o ∷ os) <> " is enabled")
]

-- What an external database lacks: the reason and the message.
unfoldable pub missing_external : String → String → AxonBaseComponent → Option (String × String)
unfolding is_verified
missing_external label field d =
    if d.authentication.secret_ref == "" && d.authentication.username == ""
    then some (
      "MissingExternalCredentials",
      "external " <> label <> " requires credentials: set spec." <> field
          <> ".authentication.secretRef or spec." <> field <> ".authentication.username/password",
    )
    else if is_verified (some d) && d.external.tls.cert_secret_ref == ""
    then some (
      "MissingExternalTLSCert",
      "external " <> label <> " TLS verification requires spec." <> field
          <> ".external.tls.certSecretRef",
    )
    else none

unfoldable pub issuer_ready : Platform → Condition
issuer_ready p =
    condition_at p "CertManagerReady" "True" "IssuerReady"
      "cert-manager is available and ClusterIssuer is ready"

abbrev pub set_if : K8s → Option Condition → Platform → Platform
set_if k none p = p
set_if k (some c) p = with_condition k c p

-- The status while the server waits for the databases, or the dashboard for the server.
unfoldable pub waiting : K8s → Option Condition → String → String → String → Platform → Platform
unfolding with_condition
waiting k cert type reason message p =
    with_condition k (condition_at p type "False" reason message) (set_if k cert p)

-- What a reconcile that comes to its end has found.
pub record Findings : Type 0 where
  pub certificate : Option Condition
  pub server_reconciled : Bool
  pub dashboard_reconciled : Bool
  pub time_series_secret : String
  pub search_secret : String
  pub time_series_cert : String
  pub search_cert : String

abbrev mode : Bool → String
mode external = if external then "External" else "Internal"

abbrev pub component_condition : Platform → String → String → Condition
component_condition p type what =
    condition_at p type "True" "Reconciled" (what <> " component reconciled successfully")

abbrev mode_condition : Platform → String → String → Bool → Condition
mode_condition p type what external =
    condition_at p type "True" (mode external) (what <> ": " <> mode external)

abbrev pub if_true : Bool → Condition → Option Condition
if_true b c = if b then some c else none

-- The conditions of the last status update, in the order in which they are set.
unfoldable pub with_findings : K8s → Findings → Platform → Platform
unfolding with_condition base_enabled is_external
with_findings k f p =
    set_if k
      (if_true (base_enabled p.spec.search)
        (mode_condition p "SearchMode" "Search" (is_external p.spec.search)))
      (set_if k
        (if_true (base_enabled p.spec.time_series)
          (mode_condition p "TimeSeriesMode" "TimeSeries" (is_external p.spec.time_series)))
        (set_if k
          (if_true f.dashboard_reconciled (component_condition p "DashboardReady" "Dashboard"))
          (set_if k (if_true f.server_reconciled (component_condition p "ServerReady" "Server"))
            (set_if k f.certificate p))))

-- `statusChanged`
unfoldable pub status_changed : Findings → Platform → Bool
unfolding base_enabled
status_changed f p =
    not (p.status.time_series_secret_name == f.time_series_secret)
    || not (p.status.search_secret_name == f.search_secret)
    || not (p.status.time_series_cert_secret_name == f.time_series_cert)
    || not (p.status.search_cert_secret_name == f.search_cert)
    || is_some f.certificate
    || f.server_reconciled
    || f.dashboard_reconciled
    || base_enabled p.spec.time_series
    || base_enabled p.spec.search

-- The platform that the last status update is given.
unfoldable pub final_platform : K8s → Findings → Platform → Platform
unfolding with_findings
final_platform k f p =
    let q = with_findings k f p in
    record q {
      status = record q.status {
        time_series_secret_name = f.time_series_secret;
        search_secret_name = f.search_secret;
        time_series_cert_secret_name = f.time_series_cert;
        search_cert_secret_name = f.search_cert;
        observed_generation = p.metadata.generation;
      };
    }
