-- ===== src/Tests/Topics.antt =====
-- The Kafka topic reconciler at work.
use mathlib.Core.Bool.{false≢true}
use mathlib.Core.Option
use axonops_operator.Prelude.{
  Bool, ◌≡◌, refl, true, false, none, some, List, [], ◌∷◌, ◌++◌, eq_iff, ◌⊎◌,
}
use axonops_operator.Errors.{api_error, retryable, Result}
use axonops_operator.Json.{object}
use axonops_operator.K8s.{Outcome, done, requeue}
use axonops_operator.Http.{Response, Run}
use axonops_operator.Http.Trace.{requests, updates, status_updates}
use axonops_operator.Client.Kafka.{
  create_kafka_topic, update_kafka_topic_config, delete_kafka_topic,
}
use axonops_operator.Connection.{resolve_api_client, api_key_of, client_of}
use axonops_operator.Kafka.Topic.{
  Topic, topic_finalizer, with_finalizers, ready_condition, config_updates, is_up_to_date,
  synced_topic,
}
use axonops_operator.Kafka.Topic.Steps.{
  api_failed, sync, finish, handle_deletion, reconcile_body, reconcile,
}
use axonops_operator.Kafka.Topic.Sync.{plan, requests-sync}
use axonops_operator.Kafka.Topic.Records.{finish-records, failed_update-not_retried}
use axonops_operator.Client.{request}
use axonops_operator.Client.Kafka.{topic_url}
use axonops_operator.Kafka.Topic.Deletion.{handle_deletion_cases}
use axonops_operator.Kafka.Topic.Settled.{requests-reconcile_settled}
use axonops_operator.Tests.Fake.{
  Fake, fake_k8s, fake_k8s-IsLawful, fake_std, fake_env, acme_client, meta_at, key, reply, world,
  start,
}

-- Synced at generation 1, and changed since.
abbrev changed : Topic
changed = record {
  metadata = meta_at 2 (topic_finalizer ∷ []);
  spec = record {
    connection_ref = "acme";
    cluster_name = "prod";
    name = "events";
    partitions = 3;
    replication_factor = 2;
    config = ("retention.ms", "1000") ∷ [];
  };
  status = record {
    conditions = ready_condition 1 ∷ [];
    synced = true;
    last_sync_time = some 1;
    observed_generation = 1;
  };
}

-- Not synced yet.
abbrev fresh : Topic
fresh = record changed {
  status = record {
    conditions = [];
    synced = false;
    last_sync_time = none;
    observed_generation = 0;
  };
}

runs : List (Result Response) → Topic → Outcome × Run (Fake Topic) Topic
unfolding reconcile resolve_api_client api_key_of client_of create_kafka_topic
    update_kafka_topic_config delete_kafka_topic finish api_failed
runs answers t = reconcile fake_k8s fake_std fake_env key (start (world (some t) answers))

-- A topic is created: one request, and a status that counts as up to date.
created :
    let (outcome, s) = runs (reply 201 ∷ []) fresh in
    (outcome ≡ done)
    × (s.world.answers ≡ [])
    × (Option.map (is_up_to_date fake_k8s) s.world.object ≡ some true)
unfolding runs is_up_to_date
created = (refl, refl, refl)

-- A refused update is not tried again.
forgotten :
    let (outcome, s) = runs (reply 503 ∷ []) changed in
    (outcome ≡ requeue 30)
    × ((reconcile fake_k8s fake_std fake_env key (start s.world)).0 ≡ done)
    × (requests (reconcile fake_k8s fake_std fake_env key (start s.world)).1.calls ≡ [])
unfolding runs is_up_to_date
forgotten = (refl, refl, refl)

abbrev begun : List (Result Response) → Topic → Run (Fake Topic) Topic
begun answers t = start (world (some t) answers)

requests-sync_example :
    requests
      (sync fake_k8s fake_std fake_env key changed acme_client
        (begun (reply 200 ∷ []) changed)).1.calls
    ≡ plan fake_k8s acme_client changed ++ []
requests-sync_example =
    requests-sync fake_k8s fake_std fake_env key changed acme_client
      (begun (reply 200 ∷ []) changed) refl refl

finish-records_example :
    (o : Topic) × (status_updates
        (finish fake_k8s fake_std fake_env key 2 (begun [] changed)).1.calls
      ≡ o ∷ [])
    × (o.metadata ≡ changed.metadata)
    × (o.spec ≡ changed.spec)
    × (fake_k8s.find_status_condition o.status.conditions "Failed" ≡ none)
    × (fake_k8s.find_status_condition o.status.conditions "Paused" ≡ none)
    × (is_up_to_date fake_k8s o ≡ true)
finish-records_example =
    finish-records fake_k8s fake_k8s-IsLawful fake_std fake_env key 2 (begun [] changed) "Paused"
      refl (λ p. false≢true ((eq_iff "Ready" "Paused").1 p))
      (λ p. false≢true ((eq_iff "Failed" "Paused").1 p))

failed_update-not_retried_example :
    ((sync fake_k8s fake_std fake_env key changed acme_client (begun (reply 503 ∷ []) changed)).0
      ≡ requeue 30)
    × (o : Topic) × (status_updates
          (sync fake_k8s fake_std fake_env key changed acme_client
            (begun (reply 503 ∷ []) changed)).1.calls
        ≡ o ∷ [])
    × ((s' : Run (Fake Topic) Topic)
        → sync fake_k8s fake_std fake_env key o acme_client s' ≡ (done, s'))
unfolding is_up_to_date config_updates update_kafka_topic_config retryable
failed_update-not_retried_example =
    failed_update-not_retried fake_k8s fake_k8s-IsLawful fake_std fake_env key changed acme_client
      (record { key = "retention.ms"; value = "1000"; op = "SET" }) []
      (begun (reply 503 ∷ []) changed) (api_error 503 "{}") refl refl refl refl refl

-- The API answers that it has no such topic: one request, and one write without the finalizer.
handle_deletion_cases_example :
    (requests
        (handle_deletion fake_k8s fake_std fake_env changed
          (begun (reply 404 ∷ []) changed)).1.calls
      ≡ request acme_client "DELETE" (topic_url acme_client "prod" "events") none ∷ [])
    × (updates
          (handle_deletion fake_k8s fake_std fake_env changed
            (begun (reply 404 ∷ []) changed)).1.calls
        ≡ with_finalizers [] changed ∷ [])
    × ((◌≡◌ {A = Bool} false false)
        ⊎ ((handle_deletion fake_k8s fake_std fake_env changed (begun (reply 404 ∷ []) changed)).0
            ≡ requeue 30))
unfolding resolve_api_client api_key_of client_of
handle_deletion_cases_example =
    handle_deletion_cases fake_k8s fake_std fake_env changed (begun (reply 404 ∷ []) changed)
      (begun (reply 404 ∷ []) changed) acme_client refl refl refl

abbrev settled : Run (Fake Topic) Topic
settled = start (world (some (synced_topic fake_k8s 2 50 changed)) [])

requests-reconcile_settled_example :
    requests (reconcile_body fake_k8s fake_std fake_env key settled).1.calls ≡ []
requests-reconcile_settled_example =
    requests-reconcile_settled fake_k8s fake_std fake_env fake_k8s-IsLawful key 50 changed settled
      refl refl
