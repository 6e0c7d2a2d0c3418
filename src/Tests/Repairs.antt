-- ===== src/Tests/Repairs.antt =====
-- The scheduled repair reconciler at work.
use axonops_operator.Prelude.{true, false, none, some, List, [], ◌∷◌, ◌<>◌}
use axonops_operator.Errors.{Result, ok}
use axonops_operator.Json.{object, field, text, array, cons, nil, end}
use axonops_operator.Http.{Response, Run, sent}
use axonops_operator.Client.{request}
use axonops_operator.Client.Repair.{ScheduledRepairEntry, cluster_path}
use axonops_operator.Repair.{Repair, repair_finalizer, ready_condition, drifted}
use axonops_operator.Tests.Fake.{Fake, fake_k8s, acme_client, meta_at, reply, world, start}

-- Not synced yet.
abbrev pub weekly : Repair
weekly = record {
  metadata = meta_at 1 (repair_finalizer ∷ []);
  spec = record {
    connection_ref = "acme";
    cluster_name = "prod";
    cluster_type = "cassandra";
    tag = "weekly";
    schedule_expression = "0 0 * * 0";
    keyspace = "ks";
    tables = none;
    blacklisted_tables = none;
    nodes = none;
    specific_data_centers = none;
    parallelism = "";
    segmented = false;
    segments_per_node = 0;
    incremental = false;
    job_threads = 0;
    primary_range = true;
    optimise_streams = false;
    skip_paxos = false;
    paxos_only = false;
  };
  status = record {
    conditions = [];
    synced_repair_id = "";
    last_sync_time = none;
    observed_generation = 0;
  };
}

abbrev synced : Repair
synced = record weekly {
  status = record {
    conditions = ready_condition 1 ∷ [];
    synced_repair_id = "r-1";
    last_sync_time = some 1;
    observed_generation = 1;
  };
}

abbrev confused : Repair
confused = record weekly { spec = record weekly.spec { skip_paxos = true; paxos_only = true } }

abbrev pub begun : Repair → List (Result Response) → Run (Fake Repair) Repair
begun r answers = start (world (some r) answers)

abbrev listed_entry : ScheduledRepairEntry
listed_entry = record { id = "r-1"; tags = "weekly" ∷ [] }

abbrev listing : Response
listing = record {
  status_code = 200;
  body = "";
  value = ok (
      object (
        field "Repairs"
          (array (
            cons
              (object (
                field "ID" (text "r-1") (
                  field "Params" (array (cons (object (field "tag" (text "weekly") end)) nil))
                    end)))
              nil))
          end));
}

abbrev read_once : Run (Fake Repair) Repair
read_once = record {
  world = world (some synced) [];
  calls =
      sent (
        request acme_client "GET"
          ("https://dash.axonops.cloud/acme/api/v1/repair/"
            <> cluster_path acme_client "cassandra" "prod")
          none)
      ∷ [];
}

abbrev pub empty_listing : Response
empty_listing = record {
  status_code = 200;
  body = "";
  value = ok (object (field "Repairs" (array nil) end));
}

abbrev gone : Run (Fake Repair) Repair
gone = record { world = world (some synced) (reply 201 ∷ []); calls = read_once.calls }

abbrev lost : Repair
lost = drifted fake_k8s synced
