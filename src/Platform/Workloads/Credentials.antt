-- ===== src/Platform/Workloads/Credentials.antt =====
-- The secrets of credentials that the containers read.
use axonops_operator.Prelude.{
  String, ◌≡◌, ◌≢◌, true, false, Option, none, some, List, [], ◌∷◌, ◌==◌, eq_iff, arith,
  if◌then◌else◌,
}
use axonops_operator.Errors.{ok}
use axonops_operator.K8s.{K8s}
use axonops_operator.Http.{Run}
use axonops_operator.Platform.Objects.{EnvVar, EnvSource, secret_key}
use axonops_operator.Platform.Types.{
  Platform, AxonBaseComponent, AxonServerComponent, component_timeseries, named,
  resolve_secret_name,
}
use axonops_operator.Platform.Cluster.{Cluster, Tools, Write}
use axonops_operator.Platform.Secrets.{ensure_authentication_secret}
use axonops_operator.Platform.Workloads.Timeseries.{timeseries_container}
use axonops_operator.Platform.Workloads.Server.{server_container}

-- The variable of the name: the last one, which Kubernetes takes where there are several.
unfoldable pub env_source : String → List EnvVar → Option EnvSource
env_source n [] = none
env_source n (e ∷ es) = elim (env_source n es) [
  | some source ↦ some source
  | none ↦ if e.name == n then some e.source else none
]

module _ {W : Type 0} (k : K8s) (t : Tools) (c : Cluster W) where
  -- With a secret that the specification refers to, and no variable of the specification that
  -- overrides the user or the password, the step that ensures the credentials answers with its name
  -- and writes nothing, and the server reads the user and the password from it; but the container of
  -- the time series database reads both from the managed secret, which that step does not make.
  pub timeseries_secret_ref :
      (p : Platform) (ts : AxonBaseComponent) (srv : AxonServerComponent) (s : Run W Write)
      (r : String × String)
      → p.spec.time_series ≡ some ts
      → ts.authentication.secret_ref ≢ ""
      → env_source "CQL_USERNAME" srv.base.env ≡ none
      → env_source "CQL_PASSWORD" srv.base.env ≡ none
      → env_source "AXONOPS_DB_USER" ts.env ≡ none
      → env_source "AXONOPS_DB_PASSWORD" ts.env ≡ none
      → (ensure_authentication_secret k t c p component_timeseries ts.authentication
          ts.storage_config s).0
        ≡ ok r
      → (r.0 ≡ ts.authentication.secret_ref)
        × ((ensure_authentication_secret k t c p component_timeseries ts.authentication
              ts.storage_config s).1.calls
            ≡ s.calls)
        × (env_source "CQL_USERNAME" (server_container t p srv).env
            ≡ some (secret_key ts.authentication.secret_ref "AXONOPS_DB_USER" true))
        × (env_source "CQL_PASSWORD" (server_container t p srv).env
            ≡ some (secret_key ts.authentication.secret_ref "AXONOPS_DB_PASSWORD" true))
        × (env_source "AXONOPS_DB_USER" (timeseries_container t p ts).env
            ≡ some (secret_key (named p component_timeseries "-auth") "AXONOPS_DB_USER" false))
        × (env_source "AXONOPS_DB_PASSWORD" (timeseries_container t p ts).env
            ≡ some (secret_key (named p component_timeseries "-auth") "AXONOPS_DB_PASSWORD" false))
  unfolding ensure_authentication_secret server_container timeseries_container env_source
      resolve_secret_name
  timeseries_secret_ref p ts srv s r there given a b d e h = (
    ground (arith, eq_iff ts.authentication.secret_ref ""),
    ground (arith, eq_iff ts.authentication.secret_ref ""),
    ground (arith, eq_iff ts.authentication.secret_ref ""),
    ground (arith, eq_iff ts.authentication.secret_ref ""),
    ground arith,
    ground arith,
  )
