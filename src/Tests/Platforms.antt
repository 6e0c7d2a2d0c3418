-- ===== src/Tests/Platforms.antt =====
-- The steps of the platform controller at concrete inputs.
use Prim.Native.Char.{Char}
use axonops_operator.Prelude.{
  ◌≤◌, String, ◌≡◌, ◌≢◌, inl, refl, true, false, none, some, List, [], ◌∷◌, length, eq_iff, arith,
  ◌==◌, if◌then◌else◌,
}
use mathlib.Core.Bool.{false≢true}
use axonops_operator.Errors.{ok}
use axonops_operator.Http.{Run}
use axonops_operator.Http.Trace.{updates}
use axonops_operator.Platform.Cluster.{Cluster, Write}
use axonops_operator.Platform.Types.{
  Platform, AxonBaseComponent, component_timeseries, component_server, component_dashboard,
  server_enabled, base_enabled, is_time_series_external, is_external, named,
}
use axonops_operator.Platform.Password.{
  lowercase, uppercase, digits, special, text_of, generate_random_password,
}
use axonops_operator.Platform.Password.Classes.{count_in, generate_random_password_classes}
use axonops_operator.Platform.Secrets.{ensure_authentication_secret}
use axonops_operator.Platform.Secrets.Stable.{no_credentials, ensure_authentication_secret_stable}
use axonops_operator.Platform.Ingresses.{
  ensure_dashboard_gateway, ensure_server_agent_gateway, ensure_server_api_gateway,
}
use axonops_operator.Platform.Ingresses.Routes.{AppliesRoute, gateway_routes_parents}
use axonops_operator.Platform.Status.{Findings, final_platform}
use axonops_operator.Platform.Components.{server_gate}
use axonops_operator.Platform.Reconcile.{reconcile_body}
use axonops_operator.Platform.Components.Gates.{Waits, server_gate-Waits}
use axonops_operator.Platform.Reconcile.Deletion.{Released, reconcile_deletion_cases}
use axonops_operator.Platform.Reconcile.Paused.{object_writes, reconcile_body-paused}
use axonops_operator.Platform.Status.{condition_at}
use axonops_operator.Platform.Status.Conditions.{find, final_platform_conditions}
use axonops_operator.Platform.Objects.{secret_key}
use axonops_operator.Platform.Workloads.Timeseries.{timeseries_container}
use axonops_operator.Platform.Workloads.Server.{server_container}
use axonops_operator.Platform.Workloads.Credentials.{env_source, timeseries_secret_ref}
use axonops_operator.Platform.Objects.{Object, SecretContent}
use axonops_operator.Tests.Fake.{fake_k8s, fake_k8s-IsLawful}
use axonops_operator.Tests.FakeCluster.{
  World, fake_cluster, fake_secrets, fake_tools, fake_cluster-IsRandom, fake_secrets-IsFaithful,
  acme, acme_key, base, server, dashboard, no_auth, storage, begin,
}

generate_random_password_classes_example :
    (cs : List Char) × ((generate_random_password fake_cluster 5 (begin acme)).0 ≡ ok (text_of cs))
    × (length cs ≡ 8)
    × (1 ≤ count_in lowercase cs)
    × (1 ≤ count_in uppercase cs)
    × (1 ≤ count_in digits cs)
    × (1 ≤ count_in special cs)
generate_random_password_classes_example =
    generate_random_password_classes fake_cluster fake_cluster-IsRandom 5 (begin acme)

-- No credentials were given and none are there: the first run generates them, the second finds them.
ensure_authentication_secret_stable_example :
    (ensure_authentication_secret fake_k8s fake_tools fake_cluster acme "search" no_credentials
      storage
      (ensure_authentication_secret fake_k8s fake_tools fake_cluster acme "search" no_auth storage
        (begin acme)).1).0
    ≡ (ensure_authentication_secret fake_k8s fake_tools fake_cluster acme "search" no_auth storage
        (begin acme)).0
unfolding fake_cluster fake_secrets ensure_authentication_secret
ensure_authentication_secret_stable_example =
    ensure_authentication_secret_stable fake_k8s fake_tools fake_cluster fake_secrets-IsFaithful
      acme "search" no_auth storage storage (begin acme) _ refl refl

gateway_routes_parents_example :
    AppliesRoute fake_tools fake_cluster acme
      (ensure_dashboard_gateway fake_tools fake_cluster acme dashboard)
      (named acme component_dashboard "-gateway")
      (named acme component_dashboard "-route")
      (named acme component_dashboard "-gateway")
    × AppliesRoute fake_tools fake_cluster acme
        (ensure_server_agent_gateway fake_tools fake_cluster acme server)
        (named acme component_server "-agent-gateway")
        (named acme component_server "-agent-route")
        (named acme component_server "-gateway")
    × AppliesRoute fake_tools fake_cluster acme
        (ensure_server_api_gateway fake_tools fake_cluster acme server)
        (named acme component_server "-api-gateway")
        (named acme component_server "-api-route")
        (named acme component_server "-gateway")
    × (named acme component_server "-gateway" ≢ named acme component_server "-agent-gateway")
    × (named acme component_server "-gateway" ≢ named acme component_server "-api-gateway")
gateway_routes_parents_example =
    gateway_routes_parents fake_tools fake_cluster acme dashboard server

abbrev found : Findings
found = record {
  certificate = none;
  server_reconciled = true;
  dashboard_reconciled = false;
  time_series_secret = "acme-timeseries-auth";
  search_secret = "acme-search-auth";
  time_series_cert = "acme-timeseries-tls";
  search_cert = "acme-search-tls";
}

-- No stateful set is there yet.
server_gate-Waits_example :
    Waits fake_k8s fake_tools fake_cluster
      (begin acme)
      (server_gate fake_k8s fake_tools fake_cluster acme_key acme found (begin acme))
unfolding server_enabled base_enabled is_time_series_external is_external fake_cluster
server_gate-Waits_example =
    server_gate-Waits fake_k8s fake_tools fake_cluster acme_key acme found (begin acme) refl
      (inl (refl, refl, λ ready. ready))

reconcile_deletion_cases_example : Released fake_k8s fake_tools fake_cluster acme (begin acme)
reconcile_deletion_cases_example =
    reconcile_deletion_cases fake_k8s fake_tools fake_cluster acme (begin acme) refl

abbrev paused : Platform
paused = record acme { spec = record acme.spec { pause = true } }

-- A cluster that has the paused platform, whatever is written.
unfoldable always_paused : Cluster World
unfolding fake_cluster
always_paused = record fake_cluster { get_platform = λ k w. (ok paused, w) }

paused_always :
    (q : Platform) (w : World)
    → (always_paused.get_platform acme_key w).0 ≡ ok q
    → (q.spec.pause ≡ true) × (q.metadata.deletion_timestamp ≡ none)
unfolding always_paused
paused_always q w e = (ground arith, ground arith)

reconcile_body-paused_example :
    object_writes
      (updates (reconcile_body fake_k8s fake_tools always_paused acme_key (begin paused)).1.calls)
    ≡ []
unfolding object_writes
reconcile_body-paused_example =
    reconcile_body-paused fake_k8s fake_tools always_paused acme_key paused_always (begin paused)

final_platform_conditions_example :
    (find fake_k8s (final_platform fake_k8s found acme) "ServerReady"
      ≡ some (
          condition_at acme "ServerReady" "True" "Reconciled"
            "Server component reconciled successfully"))
    × (find fake_k8s (final_platform fake_k8s found acme) "Ready" ≡ find fake_k8s acme "Ready")
final_platform_conditions_example =
    final_platform_conditions fake_k8s fake_k8s-IsLawful found acme (λ c e. absurd (ground arith))

-- The time series database with credentials in a secret of the user.
abbrev referring : AxonBaseComponent
referring = record base {
  authentication = record { secret_ref = "mine"; username = ""; password = "" };
}

abbrev with_ref : Platform
with_ref = record acme { spec = record acme.spec { time_series = some referring } }

abbrev mine : Object SecretContent
mine = record {
  namespace = "apps";
  name = "mine";
  labels = [];
  annotations = λ a. none;
  owner_references = [];
  content = record {
    type = "Opaque";
    entries = ("AXONOPS_DB_USER", "u") ∷ ("AXONOPS_DB_PASSWORD", "p") ∷ [];
    string_data = [];
  };
}

abbrev with_mine : Run World Write
with_mine = record {
  world = record {
    platform = some with_ref;
    secrets = λ k. if k.name == "mine" then some mine else none;
  };
  calls = [];
}

timeseries_secret_ref_example :
    (◌≡◌ {A = String} "mine" "mine")
    × ((ensure_authentication_secret fake_k8s fake_tools fake_cluster with_ref component_timeseries
          referring.authentication storage with_mine).1.calls
        ≡ [])
    × (env_source "CQL_USERNAME" (server_container fake_tools with_ref server).env
        ≡ some (secret_key "mine" "AXONOPS_DB_USER" true))
    × (env_source "CQL_PASSWORD" (server_container fake_tools with_ref server).env
        ≡ some (secret_key "mine" "AXONOPS_DB_PASSWORD" true))
    × (env_source "AXONOPS_DB_USER" (timeseries_container fake_tools with_ref referring).env
        ≡ some (secret_key (named with_ref component_timeseries "-auth") "AXONOPS_DB_USER" false))
    × (env_source "AXONOPS_DB_PASSWORD" (timeseries_container fake_tools with_ref referring).env
        ≡ some
            (secret_key (named with_ref component_timeseries "-auth") "AXONOPS_DB_PASSWORD" false))
unfolding ensure_authentication_secret fake_cluster env_source
timeseries_secret_ref_example =
    timeseries_secret_ref fake_k8s fake_tools fake_cluster with_ref referring server with_mine
      ("mine", _) refl (λ e. false≢true ((eq_iff "mine" "").1 e)) refl refl refl refl refl
