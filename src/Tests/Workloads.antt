-- ===== src/Tests/Workloads.antt =====
-- The objects of a platform at concrete inputs.
use axonops_operator.Prelude.{◌⊎◌, ℕ, String, ◌≡◌, refl, true, false, some, [], ◌∷◌, ◌<>◌}
use axonops_operator.Platform.Objects.{empty_dir}
use axonops_operator.Platform.Types.{
  Platform, AxonBaseComponent, component_search, component_timeseries, component_server,
  component_dashboard, is_search_external, is_time_series_external,
}
use axonops_operator.Platform.Config.{is_verified, search_tls, cql_tls, search_url, cql_hosts}
use axonops_operator.Platform.Certificates.{dns_names}
use axonops_operator.Platform.Password.{nth}
use axonops_operator.Platform.Workloads.Timeseries.{timeseries_spec}
use axonops_operator.Platform.Workloads.Search.{search_spec}
use axonops_operator.Platform.Workloads.Server.{server_spec, tls_mounts}
use axonops_operator.Platform.Workloads.Dashboard.{dashboard_spec}
use axonops_operator.Platform.Workloads.Mounts.{resolve, pod_resolves, mounts_resolve}
use axonops_operator.Platform.Workloads.Files.{Agree, certificate_files_mounted}
use axonops_operator.Platform.Services.{
  ensure_headless_service, ensure_service, ensure_server_agent_service, ensure_server_api_service,
}
use axonops_operator.Platform.Workloads.Ports.{
  AppliesReaching, services_reach_pods, hosts_certified,
}
use axonops_operator.Tests.FakeCluster.{fake_cluster, fake_tools, acme, base, server, dashboard}

-- The time series database with a volume of its own.
abbrev with_logs : AxonBaseComponent
with_logs = record base {
  extra_volumes = record { name = "audit"; source = empty_dir } ∷ [];
  extra_volume_mounts = record { name = "audit"; mount_path = "/audit"; read_only = false } ∷ [];
}

mounts_resolve_example :
    (pod_resolves
        (timeseries_spec fake_tools acme with_logs "h").template.spec
        (timeseries_spec fake_tools acme with_logs "h").volume_claim_templates
      ≡ true)
    × (pod_resolves
          (search_spec acme base "h").template.spec
          (search_spec acme base "h").volume_claim_templates
        ≡ true)
    × (pod_resolves
          (server_spec fake_tools acme server "h").template.spec
          (server_spec fake_tools acme server "h").volume_claim_templates
        ≡ true)
    × (pod_resolves (dashboard_spec acme dashboard "h").template.spec [] ≡ true)
unfolding resolve
mounts_resolve_example =
    mounts_resolve fake_tools acme with_logs base server dashboard "h" refl refl refl refl

-- An external search database whose certificates are verified.
abbrev verified : AxonBaseComponent
verified = record base {
  external = record {
    hosts = "https://search.acme:9200" ∷ [];
    tls = record { enabled = true; insecure_skip_verify = false; cert_secret_ref = "certs" };
    data_center = "";
  };
}

abbrev outside : Platform
outside = record acme { spec = record acme.spec { search = some verified } }

certificate_files_mounted_example :
    Agree
      (search_tls outside)
      (tls_mounts (some verified) "search-tls" "/etc/axonops/certs/search")
      "search-tls"
      "/etc/axonops/certs/search"
    × Agree
        (cql_tls outside)
        (tls_mounts (some base) "timeseries-tls" "/etc/axonops/certs/timeseries")
        "timeseries-tls"
        "/etc/axonops/certs/timeseries"
unfolding is_verified
certificate_files_mounted_example = certificate_files_mounted outside refl refl

services_reach_pods_example :
    AppliesReaching fake_tools fake_cluster acme
      (ensure_headless_service fake_tools fake_cluster acme component_timeseries)
      (timeseries_spec fake_tools acme base "h").template
    × AppliesReaching fake_tools fake_cluster acme
        (ensure_service fake_tools fake_cluster acme component_timeseries)
        (timeseries_spec fake_tools acme base "h").template
    × AppliesReaching fake_tools fake_cluster acme
        (ensure_headless_service fake_tools fake_cluster acme component_search)
        (search_spec acme base "h").template
    × AppliesReaching fake_tools fake_cluster acme
        (ensure_service fake_tools fake_cluster acme component_search)
        (search_spec acme base "h").template
    × AppliesReaching fake_tools fake_cluster acme
        (ensure_headless_service fake_tools fake_cluster acme component_server)
        (server_spec fake_tools acme server "h").template
    × AppliesReaching fake_tools fake_cluster acme
        (ensure_server_agent_service fake_tools fake_cluster acme)
        (server_spec fake_tools acme server "h").template
    × AppliesReaching fake_tools fake_cluster acme
        (ensure_server_api_service fake_tools fake_cluster acme)
        (server_spec fake_tools acme server "h").template
    × AppliesReaching fake_tools fake_cluster acme
        (ensure_service fake_tools fake_cluster acme component_dashboard)
        (dashboard_spec acme dashboard "h").template
services_reach_pods_example =
    services_reach_pods fake_tools fake_cluster acme "h" base base server dashboard

-- Both databases are internal.
hosts_certified_example :
    ((is_search_external acme ≡ true)
      ⊎ ((i : ℕ) × (host : String) × (nth i (dns_names acme component_search) ≡ some host)
          × (search_url acme ≡ "https://" <> host <> ":9200")))
    × ((is_time_series_external acme ≡ true)
        ⊎ ((i : ℕ) × (nth i (dns_names acme component_timeseries) ≡ some (cql_hosts acme))))
hosts_certified_example = hosts_certified acme
