-- ===== src/Tests/Connectors.antt =====
-- The Kafka connector reconciler at work.
use axonops_operator.Prelude.{◌≡◌, refl, true, false, none, some, [], ◌∷◌, ◌<>◌}
use axonops_operator.Errors.{ok}
use axonops_operator.Json.{object, field, text, end}
use axonops_operator.Http.{Response, Run, sent}
use axonops_operator.Http.Trace.{status_updates}
use axonops_operator.Client.{request}
use axonops_operator.Client.Kafka.{
  connector_url, connector_config_json, update_kafka_connector_config,
}
use axonops_operator.Kafka.Connector.{
  Connector, connector_finalizer, ready_condition, is_up_to_date,
}
use axonops_operator.Kafka.Connector.Steps.{sync}
use axonops_operator.Kafka.Connector.Records.{sync_updated}
use axonops_operator.Tests.Fake.{
  Fake, fake_k8s, fake_std, fake_env, acme_client, meta_at, key, world, start,
}

-- Synced at generation 1, and changed since.
abbrev changed : Connector
changed = record {
  metadata = meta_at 2 (connector_finalizer ∷ []);
  spec = record {
    connection_ref = "acme";
    cluster_name = "prod";
    connect_cluster_name = "connect";
    name = "sink";
    config = ("tasks.max", "1") ∷ [];
  };
  status = record {
    conditions = ready_condition 1 ∷ [];
    connector_type = "sink";
    synced = true;
    last_sync_time = some 1;
    observed_generation = 1;
  };
}

abbrev fresh : Connector
fresh = record changed {
  status = record {
    conditions = [];
    connector_type = "";
    synced = false;
    last_sync_time = none;
    observed_generation = 0;
  };
}

abbrev source : Response
source = record {
  status_code = 201;
  body = "";
  value = ok (object (field "name" (text "sink") (field "type" (text "source") end)));
}

abbrev begun : Connector → Run (Fake Connector) Connector
begun c = start (world (some c) (ok source ∷ []))

abbrev changed_reply : Response
changed_reply = record { status_code = 200; body = ""; value = ok (object end) }

sync_updated_example :
    (o : Connector) × (status_updates
        (sync fake_k8s fake_std fake_env key changed acme_client
          (start (world (some changed) (ok changed_reply ∷ [])))).1.calls
      ≡ o ∷ [])
    × (o.status.connector_type ≡ "sink")
unfolding is_up_to_date update_kafka_connector_config
sync_updated_example =
    sync_updated fake_k8s fake_std fake_env key changed changed acme_client
      (start (world (some changed) (ok changed_reply ∷ [])))
      (record {
        world = world (some changed) [];
        calls =
            sent (
              request acme_client "PUT"
                (connector_url acme_client "prod" "connect" "sink" <> "/config")
                (some (connector_config_json changed.spec.config)))
            ∷ [];
      })
      changed_reply refl refl refl refl
