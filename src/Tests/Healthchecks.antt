-- ===== src/Tests/Healthchecks.antt =====
-- The reconcilers of healthchecks at work, one kind in each run.
use mathlib.Core.Bool.{false≢true}
use axonops_operator.Prelude.{
  ℕ, ◌≡◌, ◌≢◌, ◌⊎◌, refl, String, false, true, none, some, List, [], ◌∷◌, ◌==◌, eq_iff,
  if◌then◌else◌,
}
use axonops_operator.Errors.{Result, ok, err, api_error, retryable}
use axonops_operator.Json.{Json, object, field, text, array, cons, nil, end}
use axonops_operator.K8s.{requeue}
use axonops_operator.Http.{Env, Response, Run, pos, sent}
use axonops_operator.Http.Trace.{requests, updates, status_updates}
use axonops_operator.Client.{request}
use axonops_operator.Client.Healthcheck.{get_healthchecks, update_healthchecks, healthchecks_url}
use axonops_operator.Client.Healthcheck.Records.{
  Healthchecks, HealthcheckHttp, HealthcheckTcp, HealthcheckShell,
}
use axonops_operator.Connection.{resolve_api_client, api_key_of, client_of}
use axonops_operator.Healthcheck.{
  Healthcheck, HealthcheckStatus, no_integrations, ready_condition, is_healthcheck_synced,
  synced_healthcheck, replace_entry, without_entry, healthcheck_exists,
}
use axonops_operator.Healthcheck.Lists.{having}
use axonops_operator.Healthcheck.Http.{HttpSpec, http_kind, http_kind-IsLawful}
use axonops_operator.Healthcheck.Tcp.{TcpSpec, tcp_kind}
use axonops_operator.Healthcheck.Shell.{ShellSpec, shell_kind, shell_entry}
use axonops_operator.Healthcheck.Steps.{sync, handle_deletion}
use axonops_operator.Healthcheck.Sync.{put_request, Places, sync-Places, handle_deletion_leaves}
use axonops_operator.Healthcheck.Accepted.{sync_accepted}
use axonops_operator.Healthcheck.Records.{failed_sync-not_retried}
use axonops_operator.Healthcheck.Concurrent.{http-tcp-AreApart, concurrent_syncs}
use axonops_operator.Healthcheck.Steps.{entries_of}
use axonops_operator.Client.Healthcheck.Records.{healthchecks_json}
use axonops_operator.Tests.Fake.{
  Fake, fake_k8s, fake_k8s-IsLawful, fake_std, fake_env, acme_client, meta_at, key, reply, world,
  start,
}

abbrev status_of : String → HealthcheckStatus
status_of id = record {
  conditions = ready_condition 1 ∷ [];
  synced_healthcheck_id = id;
  last_sync_time = some 1;
  observed_generation = 1;
}

s1-ne-nil : ◌≢◌ {A = String} "s-1" ""
s1-ne-nil p = false≢true ((eq_iff "s-1" "").1 p)

-- An HTTP healthcheck whose specification has changed since it was synced as `h-1`.
abbrev shop_http : Healthcheck HttpSpec
shop_http = record {
  metadata = meta_at 2 ("alerts.axonops.com/http-healthcheck-finalizer" ∷ []);
  spec = record {
    connection_ref = "acme";
    cluster_name = "prod";
    cluster_type = "cassandra";
    name = "shop";
    url = "https://shop/health";
    method = "GET";
    headers = ("Accept", "text/plain") ∷ [];
    body = "";
    expected_status = pos 200;
    interval = "1m";
    timeout = "1m";
    readonly = false;
    tls_skip_verify = false;
    supported_agent_types = none;
  };
  status = status_of "h-1";
}

abbrev listed_http : String → HealthcheckHttp
listed_http id = record {
  id = id;
  name = "";
  http = "";
  method = "";
  headers = none;
  body = "";
  expected_status = pos 0;
  interval = "";
  timeout = "";
  readonly = false;
  tls_skip_verify = false;
  supported_agent_types = none;
  integrations = no_integrations;
}

abbrev with_id_json : String → Json
with_id_json id = object (field "id" (text id) end)

abbrev http_list : Healthchecks
http_list = record {
  shell_checks = none;
  http_checks = some (listed_http "h-0" ∷ listed_http "h-1" ∷ listed_http "h-2" ∷ []);
  tcp_checks = none;
}

abbrev answer_with : String → String → String → String → Result Response
answer_with name a b c = ok (record {
  status_code = 200;
  body = "";
  value = ok (
      object (
        field name
          (array (cons (with_id_json a) (cons (with_id_json b) (cons (with_id_json c) nil)))) end));
})

abbrev begun :
    {S : Type 0}
    → Healthcheck S
    → List (Result Response)
    → Run (Fake (Healthcheck S)) (Healthcheck S)
begun h answers = start (world (some h) answers)

abbrev read :
    {S : Type 0}
    → Healthcheck S
    → List (Result Response)
    → Run (Fake (Healthcheck S)) (Healthcheck S)
read h answers = record {
  world = world (some h) answers;
  calls =
      sent (request acme_client "GET" (healthchecks_url acme_client "cassandra" "prod") none) ∷ [];
}

sync-Places_example :
    (es : List HealthcheckHttp) × (requests
        (sync http_kind fake_k8s fake_std fake_env key shop_http acme_client
          (begun shop_http (answer_with "httpchecks" "h-0" "h-1" "h-2" ∷ reply 200 ∷ []))).1.calls
      ≡ put_request http_kind acme_client shop_http http_list es
        ∷ requests (read shop_http (reply 200 ∷ [])).calls)
    × Places http_kind shop_http "u-new"
        (listed_http "h-0" ∷ listed_http "h-1" ∷ listed_http "h-2" ∷ [])
        es
unfolding get_healthchecks is_healthcheck_synced http_kind
sync-Places_example =
    sync-Places http_kind fake_k8s fake_std fake_env key shop_http acme_client
      (begun shop_http (answer_with "httpchecks" "h-0" "h-1" "h-2" ∷ reply 200 ∷ []))
      (read shop_http (reply 200 ∷ [])) http_list refl refl refl

-- An API that answers every request with the list of three, and an object that stays as it is.
abbrev http_answer : Response
http_answer = record {
  status_code = 200;
  body = "";
  value = ok (
      object (
        field "httpchecks"
          (array
            (cons (with_id_json "h-0") (cons (with_id_json "h-1") (cons (with_id_json "h-2") nil))))
          end));
}

abbrev steady_env : Env (Fake (Healthcheck HttpSpec)) (Healthcheck HttpSpec)
steady_env = record fake_env { send = λ r w. (ok http_answer, w); get = λ i w. (ok shop_http, w) }

abbrev steady : Run (Fake (Healthcheck HttpSpec)) (Healthcheck HttpSpec)
steady = begun shop_http []

u-new-ne-nil : ◌≢◌ {A = String} "u-new" ""
u-new-ne-nil p = false≢true ((eq_iff "u-new" "").1 p)

sync_accepted_example :
    (es : List HealthcheckHttp) × (id : String) × (time : ℕ) × (requests
        (sync http_kind fake_k8s fake_std steady_env key shop_http acme_client steady).1.calls
      ≡ put_request http_kind acme_client shop_http http_list es
        ∷ requests (read shop_http []).calls)
    × (status_updates
          (sync http_kind fake_k8s fake_std steady_env key shop_http acme_client steady).1.calls
        ≡ synced_healthcheck fake_k8s id 2 time shop_http ∷ [])
    × (healthcheck_exists http_kind.id_of es id ≡ true)
    × (is_healthcheck_synced fake_k8s (synced_healthcheck fake_k8s id 2 time shop_http) ≡ true)
unfolding get_healthchecks update_healthchecks is_healthcheck_synced http_kind healthcheck_exists
sync_accepted_example =
    sync_accepted http_kind fake_k8s fake_std steady_env http_kind-IsLawful key shop_http
      acme_client steady (read shop_http []) http_list shop_http http_answer fake_k8s-IsLawful refl
      refl refl refl u-new-ne-nil (λ es q. refl) (λ w. refl)

-- A new one, which has no id yet, and what the API lists after its sync.
abbrev new_http : Healthcheck HttpSpec
new_http = record shop_http { status = status_of "" }

-- A TCP healthcheck that is being deleted.
abbrev broker_tcp : Healthcheck TcpSpec
broker_tcp = record {
  metadata = meta_at 2 ("alerts.axonops.com/tcp-healthcheck-finalizer" ∷ []);
  spec = record {
    connection_ref = "acme";
    cluster_name = "prod";
    cluster_type = "cassandra";
    name = "broker";
    tcp = "0.0.0.0:9092";
    interval = "1m";
    timeout = "1m";
    readonly = false;
    supported_agent_types = none;
  };
  status = status_of "t-1";
}

abbrev listed_tcp : String → HealthcheckTcp
listed_tcp id = record {
  id = id;
  name = "";
  tcp = "";
  interval = "";
  timeout = "";
  readonly = false;
  supported_agent_types = none;
  integrations = no_integrations;
}

abbrev tcp_list : Healthchecks
tcp_list = record {
  shell_checks = none;
  http_checks = none;
  tcp_checks = some (listed_tcp "t-0" ∷ listed_tcp "t-1" ∷ listed_tcp "t-2" ∷ []);
}

abbrev tcp_left : List HealthcheckTcp
tcp_left = listed_tcp "t-0" ∷ listed_tcp "t-2" ∷ []

abbrev tcp_answers : List (Result Response)
tcp_answers = reply 503 ∷ []

abbrev tcp_begun : Run (Fake (Healthcheck TcpSpec)) (Healthcheck TcpSpec)
tcp_begun = begun broker_tcp (answer_with "tcpchecks" "t-0" "t-1" "t-2" ∷ tcp_answers)

-- The API is not available for the update: the healthcheck keeps its finalizer.
handle_deletion_leaves_example :
    (requests (handle_deletion tcp_kind fake_k8s fake_std fake_env broker_tcp tcp_begun).1.calls
      ≡ put_request tcp_kind acme_client broker_tcp tcp_list tcp_left
        ∷ requests (read broker_tcp tcp_answers).calls)
    × (updates (handle_deletion tcp_kind fake_k8s fake_std fake_env broker_tcp tcp_begun).1.calls
        ≡ [])
    × ((true ≡ false)
        ⊎ ((handle_deletion tcp_kind fake_k8s fake_std fake_env broker_tcp tcp_begun).0
            ≡ requeue 30))
    × ((id : String)
        → having tcp_kind.id_of id tcp_left ≡ (
            if id == "t-1"
            then []
            else having tcp_kind.id_of id
                (listed_tcp "t-0" ∷ listed_tcp "t-1" ∷ listed_tcp "t-2" ∷ [])))
unfolding get_healthchecks update_healthchecks resolve_api_client api_key_of client_of tcp_kind
    without_entry retryable
handle_deletion_leaves_example =
    handle_deletion_leaves tcp_kind fake_k8s fake_std fake_env broker_tcp acme_client tcp_begun
      tcp_begun (read broker_tcp tcp_answers) tcp_list (err (api_error 503 "{}")) refl refl refl
      refl refl refl

-- A shell healthcheck whose specification has changed since it was synced as `s-1`.
abbrev disk_shell : Healthcheck ShellSpec
disk_shell = record {
  metadata = meta_at 2 ("alerts.axonops.com/shell-healthcheck-finalizer" ∷ []);
  spec = record {
    connection_ref = "acme";
    cluster_name = "prod";
    cluster_type = "cassandra";
    name = "disk";
    script = "/usr/bin/df";
    shell = "";
    interval = "1m";
    timeout = "1m";
    readonly = true;
  };
  status = status_of "s-1";
}

abbrev listed_shell : String → HealthcheckShell
listed_shell id = record {
  id = id;
  name = "";
  script = "";
  shell = "";
  interval = "";
  timeout = "";
  readonly = false;
  integrations = no_integrations;
}

abbrev shell_list : Healthchecks
shell_list = record {
  shell_checks = some (listed_shell "s-0" ∷ listed_shell "s-1" ∷ listed_shell "s-2" ∷ []);
  http_checks = none;
  tcp_checks = none;
}

abbrev shell_answer : Result Response
shell_answer = answer_with "shellchecks" "s-0" "s-1" "s-2"

abbrev shell_begun :
    List (Result Response) → Run (Fake (Healthcheck ShellSpec)) (Healthcheck ShellSpec)
shell_begun answers = begun disk_shell (shell_answer ∷ answers)

failed_sync-not_retried_example :
    ((sync shell_kind fake_k8s fake_std fake_env key disk_shell acme_client
        (shell_begun (reply 500 ∷ []))).0
      ≡ requeue 30)
    × (o : Healthcheck ShellSpec) × (status_updates
          (sync shell_kind fake_k8s fake_std fake_env key disk_shell acme_client
            (shell_begun (reply 500 ∷ []))).1.calls
        ≡ o ∷ [])
    × (o.spec ≡ disk_shell.spec)
    × (sync shell_kind fake_k8s fake_std fake_env key o acme_client (shell_begun [])
        ≡ (requeue 300, read disk_shell []))
unfolding get_healthchecks update_healthchecks is_healthcheck_synced shell_kind replace_entry
    healthcheck_exists retryable
failed_sync-not_retried_example =
    failed_sync-not_retried shell_kind fake_k8s fake_std fake_env fake_k8s-IsLawful key disk_shell
      acme_client (shell_begun (reply 500 ∷ [])) (read disk_shell (reply 500 ∷ [])) (shell_begun [])
      (read disk_shell []) shell_list shell_list
      (listed_shell "s-0" ∷ shell_entry disk_shell ∷ listed_shell "s-2" ∷ []) (api_error 500 "{}")
      refl refl s1-ne-nil refl refl refl refl refl

-- The new HTTP healthcheck is synced while the TCP healthcheck is.
concurrent_syncs_example :
    (p : Healthchecks) × (p' : Healthchecks) × (requests
        (sync http_kind fake_k8s fake_std fake_env key new_http acme_client
          (begun new_http (answer_with "tcpchecks" "t-0" "t-1" "t-2" ∷ []))).1.calls
      ≡ request acme_client "PUT"
          (healthchecks_url acme_client "cassandra" "prod")
          (some (healthchecks_json p))
        ∷ requests (read new_http []).calls)
    × (requests
          (sync tcp_kind fake_k8s fake_std fake_env key broker_tcp acme_client
            (begun broker_tcp (answer_with "tcpchecks" "t-0" "t-1" "t-2" ∷ []))).1.calls
        ≡ request acme_client "PUT"
            (healthchecks_url acme_client "cassandra" "prod")
            (some (healthchecks_json p'))
          ∷ requests (read broker_tcp []).calls)
    × (healthcheck_exists http_kind.id_of (entries_of http_kind p) "u-new" ≡ true)
    × (healthcheck_exists http_kind.id_of (entries_of http_kind p') "u-new" ≡ false)
unfolding get_healthchecks http_kind tcp_kind is_healthcheck_synced healthcheck_exists
concurrent_syncs_example =
    concurrent_syncs http_kind tcp_kind fake_k8s fake_std fake_env fake_env key key new_http
      broker_tcp acme_client acme_client
      (begun new_http (answer_with "tcpchecks" "t-0" "t-1" "t-2" ∷ [])) (read new_http [])
      (begun broker_tcp (answer_with "tcpchecks" "t-0" "t-1" "t-2" ∷ [])) (read broker_tcp [])
      tcp_list http_kind-IsLawful http-tcp-AreApart refl refl refl refl refl refl refl refl refl
