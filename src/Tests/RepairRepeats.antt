-- ===== src/Tests/RepairRepeats.antt =====
-- Repairs that are created a second time.
use axonops_operator.Prelude.{◌≡◌, refl, none, some, [], ◌∷◌, ◌<>◌}
use axonops_operator.Errors.{foreign, wrap, ok}
use axonops_operator.Json.{object, end}
use axonops_operator.K8s.{requeue}
use axonops_operator.Http.{Run, sent}
use axonops_operator.Http.Trace.{requests, updates, status_updates}
use axonops_operator.Client.{request}
use axonops_operator.Client.Repair.{cluster_path, get_scheduled_repairs, create_scheduled_repair}
use axonops_operator.Repair.{Repair}
use axonops_operator.Repair.Steps.{sync}
use axonops_operator.Repair.Sync.{Sent, fresh, create_repair_request}
use axonops_operator.Repair.Repeats.{create_lost-repeats}
use axonops_operator.Tests.Fake.{Fake, fake_k8s, fake_std, fake_env, acme_client, key, reply, world}
use axonops_operator.Tests.Repairs.{weekly, begun}

abbrev created_once : Run (Fake Repair) Repair
created_once = record {
  world = world (some weekly) [];
  calls = sent (create_repair_request acme_client weekly) ∷ [];
}

create_lost-repeats_example :
    ((sync fake_k8s fake_std fake_env key weekly acme_client (begun weekly (reply 201 ∷ []))).0
      ≡ requeue 10)
    × (updates
          (sync fake_k8s fake_std fake_env key weekly acme_client
            (begun weekly (reply 201 ∷ []))).1.calls
        ≡ [])
    × (status_updates
          (sync fake_k8s fake_std fake_env key weekly acme_client
            (begun weekly (reply 201 ∷ []))).1.calls
        ≡ [])
    × ((w : Fake Repair)
        → Sent
            (create_repair_request acme_client weekly)
            (requests (sync fake_k8s fake_std fake_env key weekly acme_client (fresh w)).1.calls))
unfolding create_scheduled_repair get_scheduled_repairs
create_lost-repeats_example =
    create_lost-repeats fake_k8s fake_std fake_env key weekly acme_client
      (begun weekly (reply 201 ∷ [])) created_once
      (record { status_code = 201; body = "{}"; value = ok (object end) })
      (wrap "failed to get scheduled repairs" (foreign "connection refused")) refl refl refl refl

abbrev listed_once : Run (Fake Repair) Repair
listed_once = record {
  world = world (some weekly) [];
  calls =
      sent (
        request acme_client "GET"
          ("https://dash.axonops.cloud/acme/api/v1/repair/"
            <> cluster_path acme_client "cassandra" "prod")
          none)
      ∷ created_once.calls;
}
