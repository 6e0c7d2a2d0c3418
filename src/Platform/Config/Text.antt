-- ===== src/Platform/Config/Text.antt =====
-- The text of axon-server.yml and of axon-dash.yml, as the templates in
-- internal/controller/axonopsplatform_controller.go print it: an action that ends in `-}}` takes the
-- blanks and the ends of lines that follow it.
use axonops_operator.Prelude.{String, Bool, true, false, ◌<>◌, ◌==◌, if◌then◌else◌}

-- `serverConfigData`
pub record ServerConfigData : Type 0 where
  pub search_url : String
  pub search_ca_cert : String
  pub search_cert : String
  pub search_key : String
  pub search_skip_verify : Bool
  pub org_name : String
  pub license_key : String
  pub dash_url : String
  pub cql_hosts : String
  pub cql_ca_cert : String
  pub cql_key : String
  pub cql_cert : String
  pub cql_ssl_enabled : Bool
  pub cql_skip_verify : Bool
  pub cql_local_dc : String
  pub cql_keyspace_replication : String

bool_text : Bool → String
bool_text true = "true"
bool_text false = "false"

-- `{{ if .X -}} before{{ .X }}after{{ end -}}`
unfoldable pub optional : String → String → String → String
optional before x after = if x == "" then "" else before <> x <> after

unfoldable pub general_text : ServerConfigData → String
unfolding optional
general_text d =
    "agents_port: 1888\n"
    <> "api_port: 8080\n"
    <> "host: 0.0.0.0\n"
    <> "org_name: "
    <> d.org_name
    <> "\n"
    <> optional "license_key: " d.license_key "\n"

unfoldable pub search_text : ServerConfigData → String
unfolding bool_text optional
search_text d =
    "search_db:\n"
    <> "  hosts:\n"
    <> "    - "
    <> d.search_url
    <> "\n"
    <> "  skip_verify: "
    <> bool_text d.search_skip_verify
    <> "\n"
    <> "  "
    <> optional "ca_file: " d.search_ca_cert "\n  "
    <> optional "cert_file: " d.search_cert "\n  "
    <> optional "key_file: " d.search_key "\n  "
    <> "axon_dash_url: "
    <> d.dash_url
    <> "\n"
    <> "\n"

unfoldable pub retention_text : String
retention_text =
    "# Log to stdout for Kubernetes\n" <> "log_file: /dev/stdout\n" <> "tls:\n"
    <> "  mode: disabled\n" <> "auth:\n" <> "  enabled: false\n" <> "\n" <> "retention:\n"
    <> "  backups:\n" <> "    local: 10d\n" <> "    remote: 30d\n" <> "  events: 8w\n"
    <> "  metrics:\n" <> "    high_resolution: 14d\n" <> "    low_resolution: 12M\n"
    <> "    med_resolution: 12w\n" <> "    super_low_resolution: 2y\n"

unfoldable pub cql_text : ServerConfigData → String
unfolding bool_text optional
cql_text d =
    "cql_autocreate_tables: true\n"
    <> "cql_batch_size: 100\n"
    <> "cql_hosts:\n"
    <> "  - "
    <> d.cql_hosts
    <> "\n"
    <> "cql_keyspace_replication: \""
    <> d.cql_keyspace_replication
    <> "\"\n"
    <> "cql_max_searchqueriesparallelism: 100\n"
    <> "cql_metrics_cache_max_items: 500000\n"
    <> "cql_metrics_cache_max_size: 128\n"
    <> "cql_page_size: 100\n"
    <> "cql_proto_version: 4\n"
    <> "cql_reconnectionpolicy_initialinterval: 1s\n"
    <> "cql_reconnectionpolicy_maxinterval: 10s\n"
    <> "cql_reconnectionpolicy_maxretries: 10\n"
    <> "cql_retrypolicy_max: 10s\n"
    <> "cql_retrypolicy_min: 2s\n"
    <> "cql_retrypolicy_numretries: 3\n"
    <> "cql_skip_verify: "
    <> bool_text d.cql_skip_verify
    <> "\n"
    <> "cql_ssl: "
    <> bool_text d.cql_ssl_enabled
    <> "\n"
    <> optional "cql_ca_file: " d.cql_ca_cert "\n"
    <> optional "cql_key_file: " d.cql_key "\n"
    <> optional "cql_cert_file: " d.cql_cert "\n"
    <> optional "\ncql_local_dc: " d.cql_local_dc "\n"

unfoldable pub server_config_text : ServerConfigData → String
unfolding general_text search_text retention_text cql_text
server_config_text d = general_text d <> search_text d <> retention_text <> cql_text d

unfoldable pub dashboard_config_text : String → String
dashboard_config_text server_api_url =
    "axon-server:\n  private_endpoints: " <> server_api_url
    <> "\n  context_path: \"\"\n\naxon-dash:\n  host: 0.0.0.0\n  port: 3000\n  ssl:\n    enabled: false\n"
