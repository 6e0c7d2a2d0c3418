-- ===== src/Platform/Cleanup.antt =====
-- What internal/controller/axonopsplatform_controller.go deletes: the objects of a component that
-- is disabled or external, and the secrets of a platform that is being deleted.
pub mod Order
use axonops_operator.Prelude.{String, Bool, none, some, Option, List, [], ◌∷◌, ◌<>◌, if◌then◌else◌}
use axonops_operator.Errors.{wrap, ok, err}
use axonops_operator.K8s.{K8s, Key}
use axonops_operator.Platform.Types.{
  Platform, AxonBaseComponent, StorageConfig, component_timeseries, component_search,
  component_server, component_dashboard, key_in, named, component_name,
}
use axonops_operator.Platform.Cluster.{
  Kind, Cluster, Tools, Step, secret, service_account, service, config_map, stateful_set,
  deployment, certificate, cluster_issuer, ingress, http_route, gateway, return, throw, attempt,
  get_object, delete_object, ◌>>=◌, ◌>>◌,
}
use axonops_operator.Platform.Secrets.{should_retain_credentials}

-- `r.Delete` of an object of each kind
unfoldable pub delete_kind : {W : Type 0} → Cluster W → Kind → Key → Step W (Unit {0})
unfolding delete_object
delete_kind c secret key = delete_object c.secrets secret key
delete_kind c service_account key = delete_object c.service_accounts service_account key
delete_kind c service key = delete_object c.services service key
delete_kind c config_map key = delete_object c.config_maps config_map key
delete_kind c stateful_set key = delete_object c.stateful_sets stateful_set key
delete_kind c deployment key = delete_object c.deployments deployment key
delete_kind c certificate key = delete_object c.certificates certificate key
delete_kind c cluster_issuer key = delete_object c.cluster_issuers cluster_issuer key
delete_kind c ingress key = delete_object c.ingresses ingress key
delete_kind c http_route key = delete_object c.http_routes http_route key
delete_kind c gateway key = delete_object c.gateways gateway key

-- `resourcesToDelete` of a database: the workload, and the credentials unless they are retained.
unfoldable pub database_resources : Platform → String → Bool → List (Kind × String)
database_resources p component retain =
    (stateful_set, component_name p component)
    ∷ (service, named p component "-headless")
    ∷ (service, component_name p component)
    ∷ (secret, named p component "-tls")
    ∷ (if retain
        then []
        else (secret, named p component "-auth")
          ∷ (secret, named p component "-keystore-password")
          ∷ [])

unfoldable pub server_resources : Platform → List (Kind × String)
server_resources p =
    (stateful_set, component_name p component_server)
    ∷ (service, named p component_server "-headless")
    ∷ (service, named p component_server "-agent")
    ∷ (service, named p component_server "-api")
    ∷ (secret, component_name p component_server)
    ∷ (service_account, component_name p component_server)
    ∷ []

unfoldable pub dashboard_resources : Platform → List (Kind × String)
dashboard_resources p =
    (deployment, component_name p component_dashboard)
    ∷ (service, component_name p component_dashboard)
    ∷ (config_map, component_name p component_dashboard)
    ∷ (service_account, component_name p component_dashboard)
    ∷ []

abbrev pub storage_of : Option AxonBaseComponent → StorageConfig
storage_of none = record { storage_class_name = none; storage_request = none }
storage_of (some b) = b.storage_config

module _ {W : Type 0} (k : K8s) (c : Cluster W) where
  -- The loop over `resourcesToDelete`.
  unfoldable pub delete_all : Platform → List (Kind × String) → Step W (Unit {0})
  unfolding delete_kind
  delete_all p [] = return tt
  delete_all p ((kind, name) ∷ rest) = do
    deleted ← attempt (delete_kind c kind (key_in p name))
    elim deleted [
      | ok _ ↦ delete_all p rest
      | err e ↦ if k.is_not_found e then delete_all p rest else throw e
    ]

  unfoldable pub cleanup_server_resources : Platform → Step W (Unit {0})
  unfolding delete_all server_resources
  cleanup_server_resources p = delete_all p (server_resources p)

  unfoldable pub cleanup_dashboard_resources : Platform → Step W (Unit {0})
  unfolding delete_all dashboard_resources
  cleanup_dashboard_resources p = delete_all p (dashboard_resources p)

  -- Get a secret, and delete it where it is there.
  unfoldable pub delete_secret : String → Platform → String → Step W (Unit {0})
  unfolding get_object delete_object
  delete_secret what p name = do
    got ← attempt (get_object c.secrets (key_in p name))
    elim got [
      | err e ↦
          if k.is_not_found e
          then return tt
          else throw (wrap ("failed to get " <> what <> " " <> name) e)
      | ok _ ↦ do
        deleted ← attempt (delete_object c.secrets secret (key_in p name))
        elim deleted [
          | ok _ ↦ return tt
          | err e ↦
              if k.is_not_found e
              then return tt
              else throw (wrap ("failed to delete " <> what <> " " <> name) e)
        ]
    ]

  unfoldable pub cleanup_tls_secrets : Platform → Step W (Unit {0})
  unfolding delete_secret
  cleanup_tls_secrets p = do
    delete_secret "TLS secret" p (named p component_timeseries "-tls")
    delete_secret "TLS secret" p (named p component_search "-tls")

module _ {W : Type 0} (k : K8s) (t : Tools) (c : Cluster W) where
  -- `cleanupInternalTimeseriesResources` and `cleanupInternalSearchResources`
  unfoldable pub cleanup_database : Platform → String → Option AxonBaseComponent → Step W (Unit {0})
  unfolding should_retain_credentials delete_all database_resources
  cleanup_database p component b = do
    retain ← should_retain_credentials k t c (storage_of b)
    delete_all k c p (database_resources p component retain)

  -- The loop over the databases that the specification has.
  unfoldable pub cleanup_credentials :
      Platform → String → Option AxonBaseComponent → Step W (Unit {0})
  unfolding should_retain_credentials delete_secret
  cleanup_credentials p component none = return tt
  cleanup_credentials p component (some b) = do
    retain ← should_retain_credentials k t c b.storage_config
    if retain then return tt else do
      delete_secret k c "secret" p (named p component "-auth")
      delete_secret k c "secret" p (named p component "-keystore-password")

  unfoldable pub cleanup_credential_secrets_on_delete : Platform → Step W (Unit {0})
  unfolding cleanup_credentials
  cleanup_credential_secrets_on_delete p = do
    cleanup_credentials p component_timeseries p.spec.time_series
    cleanup_credentials p component_search p.spec.search
