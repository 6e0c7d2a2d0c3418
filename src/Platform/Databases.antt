-- ===== src/Platform/Databases.antt =====
-- The part of `Reconcile` of internal/controller/axonopsplatform_controller.go for the two databases.
use axonops_operator.Prelude.{String, false, Option, none, some, if◌then◌else◌}
use axonops_operator.K8s.{Key, K8s, Condition, Outcome, requeue}
use axonops_operator.Platform.Types.{
  Platform, AxonBaseComponent, component_timeseries, component_search, is_external, base_enabled,
}
use axonops_operator.Platform.Status.{failed_platform, missing_external, Findings}
use axonops_operator.Platform.Cluster.{
  Cluster, Tools, Step, return, attempt, update_status, ◌>>=◌, ◌>>◌,
}
use axonops_operator.Platform.Secrets.{ensure_authentication_secret}
use axonops_operator.Platform.Certificates.{ensure_tls_certificate}
use axonops_operator.Platform.Cleanup.{cleanup_database}
use axonops_operator.Platform.Steps.{reconcile_timeseries, reconcile_search}
use axonops_operator.Platform.Components.{server_gate}

-- What the part for a database comes to: `Reconcile` returns, or goes on with the names of the
-- credentials and of the certificate's secret.
pub data Section : Type 0 where
  stopped : Outcome → Section
  passed : String → String → Section

module _ {W : Type 0} (k : K8s) (t : Tools) (c : Cluster W) where
  -- An external database: nothing of an internal one is left, and its credentials are there.
  unfoldable pub external_database :
      Platform → String → String → String → AxonBaseComponent → Step W Section
  unfolding cleanup_database missing_external update_status failed_platform
      ensure_authentication_secret
  external_database p component label field d = do
    cleanup_database k t c p component (some d)
    elim (missing_external label field d) [
      | some (reason, message) ↦ do
        _ ← attempt (update_status c (failed_platform k "Ready" reason message p))
        return (stopped (requeue 30))
      | none ↦ do
        (name, hash) ←
            ensure_authentication_secret k t c p component d.authentication d.storage_config
        return (passed name "")
    ]

  unfoldable pub internal_database :
      Platform → String → AxonBaseComponent → (String → Step W (Unit {0})) → Step W Section
  unfolding ensure_authentication_secret ensure_tls_certificate
  internal_database p component d work = do
    (name, hash) ← ensure_authentication_secret k t c p component d.authentication d.storage_config
    cert ← ensure_tls_certificate k t c p component d.storage_config
    work hash
    return (passed name cert)

  abbrev disabled_database : Platform → String → Option AxonBaseComponent → Step W Section
  disabled_database p component b = do cleanup_database k t c p component b; return (passed "" "")

  unfoldable pub time_series_part : Platform → Step W Section
  unfolding base_enabled is_external external_database internal_database reconcile_timeseries
      cleanup_database
  time_series_part p = elim p.spec.time_series [
    | none ↦ disabled_database p component_timeseries none
    | some d ↦
        if base_enabled (some d)
        then if is_external (some d)
          then external_database p component_timeseries "TimeSeries" "timeSeries" d
          else internal_database p component_timeseries d (reconcile_timeseries t c p d)
        else disabled_database p component_timeseries (some d)
  ]

  unfoldable pub search_part : Platform → Step W Section
  unfolding base_enabled is_external external_database internal_database reconcile_search
      cleanup_database
  search_part p = elim p.spec.search [
    | none ↦ disabled_database p component_search none
    | some d ↦
        if base_enabled (some d)
        then if is_external (some d)
          then external_database p component_search "Search" "search" d
          else internal_database p component_search d (reconcile_search t c p d)
        else disabled_database p component_search (some d)
  ]

  abbrev findings : Option Condition → String → String → String → String → Findings
  findings cert ts search ts_cert search_cert = record {
    certificate = cert;
    server_reconciled = false;
    dashboard_reconciled = false;
    time_series_secret = ts;
    search_secret = search;
    time_series_cert = ts_cert;
    search_cert = search_cert;
  }

  unfoldable pub databases : Key → Platform → Option Condition → Step W Outcome
  unfolding time_series_part search_part server_gate
  databases key p cert = do
    ts ← time_series_part p
    elim ts [
      | stopped o ↦ return o
      | passed ts_name ts_cert ↦ do
        search ← search_part p
        elim search [
          | stopped o ↦ return o
          | passed search_name search_cert ↦
              server_gate k t c key p (findings cert ts_name search_name ts_cert search_cert)
        ]
    ]
