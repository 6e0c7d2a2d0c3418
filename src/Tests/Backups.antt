-- ===== src/Tests/Backups.antt =====
-- The backup reconciler at work.
use mathlib.Core.Bool.{false≢true}
use axonops_operator.Prelude.{
  ◌≡◌, ◌≢◌, refl, String, Bool, true, false, not, none, some, List, [], ◌∷◌, eq_iff, arith, nat_eq,
}
use axonops_operator.Errors.{Result}
use axonops_operator.Json.{object, array, cons, nil, field, text, end}
use axonops_operator.Http.{Response, Run, sent, pos}
use axonops_operator.Http.Trace.{requests, status_updates}
use axonops_operator.Client.Backup.{
  BackupPayload, create_scheduled_snapshot, delete_scheduled_snapshot,
}
use axonops_operator.Backup.{
  Backup, S3Config, backup_finalizer, ready_condition, is_backup_synced, local_payload,
}
use axonops_operator.Backup.Steps.{build_backup_payload, sync}
use axonops_operator.Backup.Remote.{value_of, s3_entries, format_remote_config}
use axonops_operator.Backup.Remote.Lines.{parse_config}
use axonops_operator.Backup.Remote.Reading.{is_printable, value_of-parse_config}
use axonops_operator.Backup.Sync.{create_request, delete_request, sync_replaces}
use axonops_operator.Tests.Fake.{
  Fake, fake_k8s, fake_std, fake_env, acme_client, meta_at, key, reply, world, start,
}

-- A backup of two tables that was synced before its specification changed.
abbrev daily : Backup
daily = record {
  metadata = meta_at 2 (backup_finalizer ∷ []);
  spec = record {
    connection_ref = "acme";
    cluster_name = "prod";
    cluster_type = "cassandra";
    tag = "daily";
    datacenters = some ("dc1" ∷ []);
    schedule = none;
    schedule_expression = "0 1 * * *";
    local_retention = "10d";
    timeout = "10h";
    nodes = none;
    keyspaces = none;
    tables = "shop.orders" ∷ "shop.items" ∷ [];
    remote = none;
  };
  status = record {
    conditions = ready_condition 1 ∷ [];
    synced_backup_id = "b-1";
    last_sync_time = some 1;
    observed_generation = 1;
  };
}

b1-ne-nil : ◌≢◌ {A = String} "b-1" ""
b1-ne-nil p = false≢true ((eq_iff "b-1" "").1 p)

abbrev begun : Backup → List (Result Response) → Run (Fake Backup) Backup
begun b answers = start (world (some b) answers)

abbrev answers : List (Result Response)
answers = reply 404 ∷ reply 201 ∷ []

abbrev payload : BackupPayload
payload = local_payload daily

abbrev after_delete : Run (Fake Backup) Backup
after_delete = record {
  world = world (some daily) (reply 201 ∷ []);
  calls = sent (delete_request acme_client daily) ∷ [];
}

abbrev after_create : Run (Fake Backup) Backup
after_create = record {
  world = world (some daily) [];
  calls =
      sent (create_request acme_client daily payload)
      ∷ sent (delete_request acme_client daily)
      ∷ [];
}

sync_replaces_example :
    (o : Backup) × (requests
        (sync fake_k8s fake_std fake_env key daily acme_client (begun daily answers)).1.calls
      ≡ create_request acme_client daily payload ∷ delete_request acme_client daily ∷ [])
    × (status_updates
          (sync fake_k8s fake_std fake_env key daily acme_client (begun daily answers)).1.calls
        ≡ o ∷ [])
    × (payload.id ≡ "b-1")
    × (o.status.synced_backup_id ≡ "b-1")
    × (o.status.observed_generation ≡ 2)
    × (o.spec ≡ daily.spec)
unfolding is_backup_synced build_backup_payload local_payload create_scheduled_snapshot
    delete_scheduled_snapshot
sync_replaces_example =
    sync_replaces fake_k8s fake_std fake_env key daily acme_client payload (begun daily answers)
      (begun daily answers) after_delete after_create
      (Result.ok (record { status_code = 404; body = "{}"; value = Result.ok (object end) }))
      (record { status_code = 201; body = "{}"; value = Result.ok (object end) }) refl b1-ne-nil
      refl refl refl refl refl refl refl

-- The same backup, to S3 but without the configuration of S3.
abbrev incomplete : Backup
incomplete = record daily {
  spec = record daily.spec {
    remote = some (record {
      type = "s3";
      path = "bucket/daily";
      retention = "60d";
      transfers = 1;
      tps_limit = pos 50;
      bandwidth_limit = "";
      s3 = none;
      sftp = none;
      azure = none;
    });
  };
}

-- The answer to the next reconcile: the old snapshot is still listed.
abbrev listing : Response
listing = record {
  status_code = 200;
  body = "";
  value = Result.ok (
      object
        (field "ScheduledSnapshots" (array (cons (object (field "ID" (text "b-1") end)) nil)) end));
}

-- Tables without their keyspace: everything is backed up.
abbrev unqualified : Backup
unqualified = record daily { spec = record daily.spec { tables = "orders" ∷ "items" ∷ [] } }

unqualified_test : (local_payload unqualified).all_tables ≡ true
unfolding local_payload axonops_operator.Prelude.after_first
unqualified_test = refl

abbrev bucket : S3Config
bucket = record {
  region = "eu-west-1";
  credentials_ref = "";
  access_key_id = "AKIA";
  secret_access_key = "s3 cret=";
  storage_class = "STANDARD";
  acl = "private";
  encryption = "AES256";
  no_check_bucket = false;
  disable_checksum = false;
}

value_of-parse_config_example :
    value_of
      (parse_config (format_remote_config (s3_entries bucket "AKIA" "s3 cret=")))
      "secret_access_key"
    ≡ value_of (s3_entries bucket "AKIA" "s3 cret=") "secret_access_key"
unfolding is_printable s3_entries
value_of-parse_config_example =
    value_of-parse_config (s3_entries bucket "AKIA" "s3 cret=") refl "secret_access_key"
