-- ===== src/Tests/Adaptive.antt =====
-- The adaptive repair reconciler at work.
use axonops_operator.Prelude.{none, some, [], ◌∷◌}
use axonops_operator.Errors.{Result}
use axonops_operator.Http.{Response, Run}
use axonops_operator.Client.Adaptive.{settings_json}
use axonops_operator.Adaptive.{
  AdaptiveRepair, adaptive_finalizer, ready_condition, build_adaptive_repair_settings,
}
use axonops_operator.Tests.Fake.{Fake, meta_at, world, start}

-- Adaptive repair of one cluster, whose specification has changed since it was synced.
abbrev cluster_repair : AdaptiveRepair
cluster_repair = record {
  metadata = meta_at 2 (adaptive_finalizer ∷ []);
  spec = record {
    connection_ref = "acme";
    cluster_name = "prod";
    cluster_type = "cassandra";
    active = none;
    gc_grace_threshold = some 3600;
    table_parallelism = none;
    excluded_tables = some ("shop.carts" ∷ []);
    filter_twcs_tables = none;
    segment_retries = none;
    segment_target_size_mb = none;
    segment_timeout = "";
    max_segments_per_table = none;
  };
  status = record {
    conditions = ready_condition 1 ∷ [];
    last_sync_time = some 1;
    observed_generation = 1;
  };
}

-- The API has the settings already.
abbrev held : Response
held = record {
  status_code = 200;
  body = "";
  value = Result.ok (settings_json (build_adaptive_repair_settings cluster_repair));
}

abbrev asked : Run (Fake AdaptiveRepair) AdaptiveRepair
asked = start (world (some cluster_repair) (Result.ok held ∷ []))
