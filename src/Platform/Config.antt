-- ===== src/Platform/Config.antt =====
-- The configuration of the server and of the dashboard, in
-- internal/controller/axonopsplatform_controller.go: the data, and the text that the template of
-- axon-server.yml makes of it.
pub mod Text
use axonops_operator.Prelude.{
  join, ℕ, String, Bool, true, false, Option, none, some, List, [], ◌∷◌, ◌<>◌, ◌==◌, ◌&&◌, ◌||◌,
  not, or_default, if◌then◌else◌,
}
use axonops_operator.Errors.{Result, ok, err, wrap}
use axonops_operator.Platform.Types.{
  Platform, AxonBaseComponent, AxonServerComponent, AxonDashboardComponent, AxonTlsConfig,
  component_timeseries, component_search, component_server, component_dashboard, component_name,
  named, key_in, lookup, build_labels, is_search_external, is_time_series_external,
}
use axonops_operator.Platform.Cluster.{
  Cluster, Tools, Step, secret, config_map, return, throw, annotate, get_object, apply_object,
  ◌>>=◌, ◌>>◌,
}
use axonops_operator.Platform.Secrets.{owned, digest}
use Text.{ServerConfigData, server_config_text, dashboard_config_text}

abbrev first_or : String → List String → String
first_or d [] = d
first_or d (x ∷ xs) = x

abbrev external_hosts : Option AxonBaseComponent → List String
external_hosts none = []
external_hosts (some b) = b.external.hosts

unfoldable pub search_url : Platform → String
search_url p =
    first_or ("https://" <> component_name p component_search <> ":9200")
      (external_hosts p.spec.search)

unfoldable pub cql_hosts : Platform → String
unfolding is_time_series_external join
cql_hosts p =
    if is_time_series_external p
    then join "," (external_hosts p.spec.time_series)
    else named p component_timeseries "-headless"
      <> "."
      <> p.metadata.namespace
      <> ".svc.cluster.local"

abbrev dashboard_hosts : Option AxonDashboardComponent → List String
dashboard_hosts none = []
dashboard_hosts (some d) = d.base.external.hosts

unfoldable pub dash_url : Platform → String
dash_url p =
    "https://" <> first_or (component_name p component_dashboard) (dashboard_hosts p.spec.dashboard)

-- The certificate paths and the switches of a connection to a database.
pub record TlsSettings : Type 0 where
  pub ssl_enabled : Bool
  pub skip_verify : Bool
  pub ca_cert : String
  pub key : String
  pub cert : String

-- Whether an external database's certificates are verified: `tlsCfg.Enabled && !InsecureSkipVerify`.
unfoldable pub is_verified : Option AxonBaseComponent → Bool
is_verified none = false
is_verified (some b) = b.external.tls.enabled && not b.external.tls.insecure_skip_verify

abbrev tls_enabled : Option AxonBaseComponent → Bool
tls_enabled none = false
tls_enabled (some b) = b.external.tls.enabled

abbrev tls_skips : Option AxonBaseComponent → Bool
tls_skips none = false
tls_skips (some b) = b.external.tls.insecure_skip_verify

abbrev mounted : String → Bool → Bool → TlsSettings
mounted dir ssl skip = record {
  ssl_enabled = ssl;
  skip_verify = skip;
  ca_cert = dir <> "/ca.crt";
  key = dir <> "/tls.key";
  cert = dir <> "/tls.crt";
}

abbrev unmounted : Bool → Bool → TlsSettings
unmounted ssl skip = record {
  ssl_enabled = ssl;
  skip_verify = skip;
  ca_cert = "";
  key = "";
  cert = "";
}

-- The server's configuration has no switch for TLS to the search database.
unfoldable pub search_tls : Platform → TlsSettings
unfolding is_search_external is_verified
search_tls p =
    if is_search_external p
    then if is_verified p.spec.search
      then mounted "/etc/axonops/certs/search" true false
      else unmounted true (not (tls_enabled p.spec.search) || tls_skips p.spec.search)
    else mounted "/etc/axonops/certs/search" true true

unfoldable pub cql_tls : Platform → TlsSettings
unfolding is_time_series_external is_verified
cql_tls p =
    if is_time_series_external p
    then if is_verified p.spec.time_series
      then mounted "/etc/axonops/certs/timeseries" true false
      else if tls_enabled p.spec.time_series
      then unmounted true true
      else unmounted false false
    else mounted "/etc/axonops/certs/timeseries" true true

abbrev data_center_of : Option AxonBaseComponent → String
data_center_of none = ""
data_center_of (some b) = b.external.data_center

unfoldable pub local_dc : Platform → String
unfolding is_time_series_external
local_dc p =
    if is_time_series_external p then data_center_of p.spec.time_series else "axonopsdb_dc1"

unfoldable pub keyspace_replication : String → String
keyspace_replication dc =
    if dc == ""
    then "{ 'class': 'NetworkTopologyStrategy' }"
    else "{ 'class': 'NetworkTopologyStrategy', '" <> dc <> "': 1 }"

unfoldable pub server_config_data :
    Tools → Platform → AxonServerComponent → String → ServerConfigData
unfolding search_url cql_hosts dash_url search_tls cql_tls local_dc keyspace_replication
server_config_data t p srv license_key = record {
  search_url = search_url p;
  search_ca_cert = (search_tls p).ca_cert;
  search_cert = (search_tls p).cert;
  search_key = (search_tls p).key;
  search_skip_verify = (search_tls p).skip_verify;
  org_name = t.to_lower srv.org_name;
  license_key = license_key;
  dash_url = dash_url p;
  cql_hosts = cql_hosts p;
  cql_ca_cert = (cql_tls p).ca_cert;
  cql_key = (cql_tls p).key;
  cql_cert = (cql_tls p).cert;
  cql_ssl_enabled = (cql_tls p).ssl_enabled;
  cql_skip_verify = (cql_tls p).skip_verify;
  cql_local_dc = local_dc p;
  cql_keyspace_replication = keyspace_replication (local_dc p);
}

-- The YAML of the extra configuration, which follows the text.
unfoldable pub extra_config : Tools → Option String → Result String
extra_config t none = ok ""
extra_config t (some raw) = elim (t.unmarshal raw) [
  | err e ↦ err (wrap "failed to unmarshal extra config" e)
  | ok v ↦ elim (t.yaml v) [
    | err e ↦ err (wrap "failed to marshal extra config to YAML" e)
    | ok text ↦ ok ("\n" <> text)
  ]
]

unfoldable pub build_server_config : Tools → Platform → AxonServerComponent → String → Result String
unfolding server_config_data server_config_text extra_config
build_server_config t p srv license_key = elim (extra_config t srv.config) [
  | err e ↦ err e
  | ok extra ↦ ok (server_config_text (server_config_data t p srv license_key) <> extra)
]

module _ {W : Type 0} (t : Tools) (c : Cluster W) where
  -- The key of the licence: the one of the specification, or that of the secret it names.
  unfoldable pub license_key_of : Platform → AxonServerComponent → Step W String
  unfolding get_object lookup
  license_key_of p srv =
      if srv.license.key == ""
      then if srv.license.secret_ref == "" then return "" else (do
        s ←
            annotate ("failed to get license secret " <> t.quote srv.license.secret_ref)
              (get_object c.secrets (key_in p srv.license.secret_ref))
        return (or_default (lookup "license_key" s.content.entries) ""))
      else return srv.license.key

  abbrev or_throw : Result String → Step W String
  or_throw (ok a) = return a
  or_throw (err e) = throw e

  -- `ensureServerConfigSecret`: the hash of the configuration.
  unfoldable pub ensure_server_config_secret : Platform → AxonServerComponent → Step W String
  unfolding license_key_of build_server_config digest apply_object owned build_labels
  ensure_server_config_secret p srv = do
    license_key ← license_key_of p srv
    text ←
        annotate "failed to build server config"
          (or_throw (build_server_config t p srv license_key))
    apply_object c.secrets secret (key_in p (component_name p component_server)) (
        owned t p λ o. record o {
          labels = build_labels p component_server;
          content = record o.content {
            type = "Opaque";
            string_data = ("axon-server.yml", text) ∷ [];
          };
        })
    return (digest t (("axon-server.yml", text) ∷ []))

  -- `ensureDashboardConfigMap`: the hash of the configuration.
  unfoldable pub ensure_dashboard_config_map : Platform → Step W String
  unfolding dashboard_config_text digest apply_object owned build_labels
  ensure_dashboard_config_map p = do
    let text = dashboard_config_text ("http://" <> named p component_server "-api" <> ":8080")
    apply_object c.config_maps config_map (key_in p (component_name p component_dashboard)) (
        owned t p λ o. record o {
          labels = build_labels p component_dashboard;
          content = ("axon-dash.yml", text) ∷ [];
        })
    return (digest t (("axon-dash.yml", text) ∷ []))
