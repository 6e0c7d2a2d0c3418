-- ===== src/Tests/Acls.antt =====
-- The Kafka ACL reconciler at work.
use axonops_operator.Prelude.{◌≡◌, refl, true, some, List, [], ◌∷◌}
use axonops_operator.Errors.{Result}
use axonops_operator.Http.{Response, Run}
use axonops_operator.Http.Trace.{requests}
use axonops_operator.Client.{request}
use axonops_operator.Client.Kafka.{acls_url, acl_json}
use axonops_operator.Connection.{resolve_api_client, api_key_of, client_of}
use axonops_operator.Kafka.Acl.{
  Acl, acl_finalizer, ready_condition, build_acl_payload, is_up_to_date,
}
use axonops_operator.Kafka.Acl.Steps.{sync, handle_deletion}
use axonops_operator.Kafka.Acl.Sync.{requests-create_delete}
use axonops_operator.Tests.Fake.{
  Fake, fake_k8s, fake_std, fake_env, acme_client, meta_at, key, world, start,
}

-- Synced at generation 1, and changed since.
abbrev changed : Acl
changed = record {
  metadata = meta_at 2 (acl_finalizer ∷ []);
  spec = record {
    connection_ref = "acme";
    cluster_name = "prod";
    resource_type = "TOPIC";
    resource_name = "events";
    resource_pattern_type = "";
    principal = "User:app";
    host = "";
    operation = "READ";
    permission_type = "ALLOW";
  };
  status = record {
    conditions = ready_condition 1 ∷ [];
    synced = true;
    last_sync_time = some 1;
    observed_generation = 1;
  };
}

abbrev begun : List (Result Response) → Run (Fake Acl) Acl
begun answers = start (world (some changed) answers)

requests-create_delete_example :
    (requests (sync fake_k8s fake_std fake_env key changed acme_client (begun [])).1.calls
      ≡ request acme_client "POST"
          (acls_url acme_client "prod")
          (some (acl_json (build_acl_payload changed)))
        ∷ [])
    × (requests (handle_deletion fake_k8s fake_std fake_env changed (begun [])).1.calls
        ≡ request acme_client "DELETE"
            (acls_url acme_client "prod")
            (some (acl_json (build_acl_payload changed)))
          ∷ [])
unfolding resolve_api_client api_key_of client_of is_up_to_date
requests-create_delete_example =
    requests-create_delete fake_k8s fake_std fake_env key changed acme_client (begun []) (begun [])
      (begun []) refl refl
