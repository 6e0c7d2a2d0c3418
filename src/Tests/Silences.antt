-- ===== src/Tests/Silences.antt =====
-- The silence window reconciler at work.
use mathlib.Core.Bool.{false≢true}
use axonops_operator.Prelude.{◌≡◌, ◌≢◌, refl, String, true, none, some, List, [], ◌∷◌, eq_iff}
use axonops_operator.Errors.{Result}
use axonops_operator.Json.{object, end}
use axonops_operator.Http.{Response, Run, sent}
use axonops_operator.Http.Trace.{requests, status_updates}
use axonops_operator.Client.Silence.{create_silence_window}
use axonops_operator.Silence.{Silence, silence_finalizer, silence_payload, is_active}
use axonops_operator.Silence.Steps.{sync}
use axonops_operator.Silence.Sync.{post_request, sync_new_window}
use axonops_operator.Tests.Fake.{
  Fake, fake_k8s, fake_std, fake_env, acme_client, meta_at, key, reply, world, start,
}

abbrev nightly : Silence
nightly = record {
  metadata = meta_at 1 (silence_finalizer ∷ []);
  spec = record {
    connection_ref = "acme";
    cluster_name = "prod";
    cluster_type = "cassandra";
    duration = "1h";
    active = none;
    recurring = true;
    cron_expression = "0 1 * * *";
    datacenters = none;
  };
  status = record {
    conditions = [];
    synced_silence_id = "";
    last_sync_time = none;
    observed_generation = 0;
  };
}

abbrev begun : Silence → List (Result Response) → Run (Fake Silence) Silence
begun s answers = start (world (some s) answers)

new-ne-nil : ◌≢◌ {A = String} "u-new" ""
new-ne-nil p = false≢true ((eq_iff "u-new" "").1 p)

abbrev created : Run (Fake Silence) Silence
created = record {
  world = world (some nightly) [];
  calls = sent (post_request acme_client nightly "u-new") ∷ [];
}

sync_new_window_example :
    (o : Silence) × (requests
        (sync fake_k8s fake_std fake_env key nightly acme_client
          (begun nightly (reply 204 ∷ []))).1.calls
      ≡ post_request acme_client nightly o.status.synced_silence_id ∷ [])
    × (status_updates
          (sync fake_k8s fake_std fake_env key nightly acme_client
            (begun nightly (reply 204 ∷ []))).1.calls
        ≡ o ∷ [])
    × (o.status.synced_silence_id ≢ "")
    × (o.spec ≡ nightly.spec)
unfolding is_active create_silence_window silence_payload
sync_new_window_example =
    sync_new_window fake_k8s fake_std fake_env key nightly acme_client
      (begun nightly (reply 204 ∷ [])) created
      (record { status_code = 204; body = "{}"; value = Result.ok (object end) }) refl refl refl
      new-ne-nil refl refl
