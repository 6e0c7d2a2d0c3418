-- ===== src/Tests/Collectors.antt =====
-- The log collector reconciler at work.
use axonops_operator.Prelude.{◌≡◌, refl, String, false, none, some, List, [], ◌∷◌}
use axonops_operator.Errors.{Result, ok}
use axonops_operator.Json.{Json, object, field, text, array, cons, nil, end, null}
use axonops_operator.Http.{Request, Response, Run, sent}
use axonops_operator.Http.Trace.{requests}
use axonops_operator.Client.{request, form_request}
use axonops_operator.Client.Collector.{LogCollector, collectors_json, get_log_collectors}
use axonops_operator.Collector.{
  Collector, collector_finalizer, collector_entry, filtered, ready_condition,
}
use axonops_operator.Collector.Merge.{named_in}
use axonops_operator.Collector.Steps.{write}
use axonops_operator.Collector.Sync.{list_url, write_merges}
use axonops_operator.Tests.Fake.{
  Fake, fake_k8s, fake_std, fake_env, acme_client, meta_at, key, reply, world, start,
}

abbrev system_log : Collector
system_log = record {
  metadata = meta_at 2 (collector_finalizer ∷ []);
  spec = record {
    connection_ref = "acme";
    cluster_name = "prod";
    cluster_type = "cassandra";
    name = "system";
    filename = "system.log";
    interval = "5s";
    timeout = "1m";
    date_format = "";
    info_regex = "";
    warning_regex = "";
    error_regex = "ERROR";
    debug_regex = "";
    readonly = false;
  };
  status = record {
    conditions = ready_condition 1 ∷ [];
    synced_uuid = "u-1";
    last_sync_time = some 1;
    observed_generation = 1;
  };
}

-- What the decoder makes of a collector of which the id and the file alone are given.
abbrev bare : String → String → LogCollector
bare id file = record {
  uuid = id;
  id = "";
  name = "";
  interval = "";
  timeout = "";
  filename = file;
  date_format = "";
  info_regex = "";
  warning_regex = "";
  error_regex = "";
  debug_regex = "";
  readonly = false;
  integrations = record {
    override_error = false;
    override_info = false;
    override_warning = false;
    routing = null;
    type = "";
  };
}

abbrev listed : List LogCollector
listed = bare "u-1" "system.log" ∷ bare "u-2" "gc.log" ∷ []

abbrev bare_json : String → String → Json
bare_json id file = object (field "uuid" (text id) (field "filename" (text file) end))

abbrev listing : Response
listing = record {
  status_code = 200;
  body = "";
  value = ok (array (cons (bare_json "u-1" "system.log") (cons (bare_json "u-2" "gc.log") nil)));
}

abbrev begun : List (Result Response) → Run (Fake Collector) Collector
begun answers = start (world (some system_log) answers)

abbrev get_request : Request
get_request = request acme_client "GET" (list_url acme_client system_log) none

abbrev read : List (Result Response) → Run (Fake Collector) Collector
read answers = record { world = world (some system_log) answers; calls = sent get_request ∷ [] }

write_merges_example :
    (ls : List LogCollector) × (requests
        (write fake_k8s fake_std fake_env key system_log acme_client
          (begun (ok listing ∷ reply 204 ∷ []))).1.calls
      ≡ form_request acme_client "PUT"
          (list_url acme_client system_log)
          "addlogs"
          (collectors_json (some ls))
        ∷ get_request
        ∷ [])
    × (filtered "system.log" ls ≡ bare "u-2" "gc.log" ∷ [])
    × (named_in "system.log" ls ≡ collector_entry system_log "u-1" ∷ [])
unfolding get_log_collectors filtered
write_merges_example =
    write_merges fake_k8s fake_std fake_env key system_log acme_client
      (begun (ok listing ∷ reply 204 ∷ [])) (read (reply 204 ∷ [])) listed refl refl
