-- ===== src/Platform/Reconcile.antt =====
-- `Reconcile` of internal/controller/axonopsplatform_controller.go, up to the
-- components, whose parts are in Databases and Components. The resource goes from one part to the next as the code has it in memory.
pub mod Deletion
pub mod Paused
use axonops_operator.Prelude.{
  join, ℕ, String, Bool, true, false, Option, none, some, List, [], ◌∷◌, ◌<>◌, ◌==◌, is_some,
  if◌then◌else◌,
}
use axonops_operator.Errors.{Error, Result, ok, err, error_text}
use axonops_operator.K8s.{Key, K8s, Condition, Outcome, done, requeue, fail}
use axonops_operator.Http.{M}
use axonops_operator.Metrics.{with_metrics}
use axonops_operator.Platform.Types.{
  Platform, AxonBaseComponent, AxonServerComponent, AxonDashboardComponent, component_timeseries,
  component_search, is_external, base_enabled, server_enabled, dashboard_enabled,
  needs_internal_resources,
}
use axonops_operator.Platform.Status.{
  with_condition, without_condition, reconciliation_paused, failed_platform, invalid_configuration,
  missing_external, issuer_ready, waiting, Findings, status_changed, final_platform,
}
use axonops_operator.Platform.Cluster.{
  Cluster, Tools, Step, Write, return, throw, attempt, get_platform, update_platform, update_status,
  certificate_mapping, ◌>>=◌, ◌>>◌,
}
use axonops_operator.Platform.Secrets.{ensure_authentication_secret}
use axonops_operator.Platform.Certificates.{ensure_cluster_issuer, ensure_tls_certificate}
use axonops_operator.Platform.Cleanup.{
  cleanup_tls_secrets, cleanup_credential_secrets_on_delete, cleanup_database,
  cleanup_server_resources, cleanup_dashboard_resources,
}
use axonops_operator.Platform.Components.{refetch_status}
use axonops_operator.Platform.Databases.{databases}
use axonops_operator.Platform.Steps.{
  reconcile_timeseries, reconcile_search, reconcile_server, reconcile_dashboard, time_series_ready,
  search_ready, server_ready,
}

abbrev pub platform_finalizer : String
platform_finalizer = "core.axonops.com/finalizer"

abbrev pub with_finalizers : List String → Platform → Platform
with_finalizers fs p = record p { metadata = record p.metadata { finalizers = fs } }

module _ {W : Type 0} (k : K8s) (t : Tools) (c : Cluster W) where
  -- cert-manager's resources, and the issuer where the specification names none.
  unfoldable pub cert_manager : Key → Platform → Step W Outcome
  unfolding needs_internal_resources certificate_mapping ensure_cluster_issuer failed_platform
      refetch_status issuer_ready with_condition error_text databases
  cert_manager key p =
      if needs_internal_resources p
      then (do
        mapping ← attempt (certificate_mapping c)
        elim mapping [
          | err e ↦
              refetch_status k t c key
                (failed_platform k "CertManagerReady" "CertManagerUnavailable"
                  "cert-manager CRDs are not installed in the cluster")
                (requeue 60)
          | ok _ ↦ do
            issuer ←
                attempt
                  (if p.spec.issuer.name == "" then ensure_cluster_issuer k t c p else return tt)
            elim issuer [
              | err e ↦
                  refetch_status k t c key
                    (failed_platform k "CertManagerReady" "FailedToCreateIssuer" (error_text e))
                    (requeue 30)
              | ok _ ↦
                  databases k t c key (with_condition k (issuer_ready p) p) (some (issuer_ready p))
            ]
        ])
      else databases k t c key p none

  unfoldable pub validate : Key → Platform → Step W Outcome
  unfolding invalid_configuration failed_platform update_status cert_manager
  validate key p = elim (invalid_configuration p) [
    | some message ↦ do
      _ ← attempt (update_status c (failed_platform k "Ready" "InvalidConfiguration" message p))
      return done
    | none ↦ cert_manager key p
  ]

  -- Nothing but the status is written while the resource is paused.
  unfoldable pub check_pause : Key → Platform → Step W Outcome
  unfolding update_status with_condition without_condition validate
  check_pause key p =
      if p.spec.pause
      then (do _ ← update_status c (with_condition k reconciliation_paused p); return done)
      else if is_some (k.find_status_condition p.status.conditions "Paused")
      then (do q ← update_status c (without_condition k "Paused" p); validate key q)
      else validate key p

  unfoldable pub reconcile_live : Key → Platform → Step W Outcome
  unfolding update_platform get_platform check_pause
  reconcile_live key p =
      if k.contains_finalizer p.metadata.finalizers platform_finalizer
      then check_pause key p
      else (do
        _ ←
            update_platform c
              (with_finalizers (k.add_finalizer p.metadata.finalizers platform_finalizer) p)
        q ← get_platform c key
        check_pause key q)

  unfoldable pub reconcile_deletion : Platform → Step W Outcome
  unfolding cleanup_tls_secrets cleanup_credential_secrets_on_delete update_platform
  reconcile_deletion p =
      if k.contains_finalizer p.metadata.finalizers platform_finalizer
      then (do
        cleanup_tls_secrets k c p
        cleanup_credential_secrets_on_delete k t c p
        _ ←
            update_platform c
              (with_finalizers (k.remove_finalizer p.metadata.finalizers platform_finalizer) p)
        return done)
      else return done

  unfoldable pub reconcile_body : Key → Step W Outcome
  unfolding get_platform reconcile_deletion reconcile_live
  reconcile_body key = do
    got ← attempt (get_platform c key)
    elim got [
      | err e ↦ return (fail (k.ignore_not_found e))
      | ok p ↦
          if is_some p.metadata.deletion_timestamp
          then reconcile_deletion p
          else reconcile_live key p
    ]

  -- An error that ends the reconcile is its error.
  abbrev conclude : Result Outcome → Outcome
  conclude (ok o) = o
  conclude (err e) = fail (some e)

  unfoldable pub reconcile : Key → M W Write Outcome
  unfolding reconcile_body with_metrics
  reconcile key =
      with_metrics k "axonopsplatform" λ s. let (r, s') = reconcile_body key s in (conclude r, s')
