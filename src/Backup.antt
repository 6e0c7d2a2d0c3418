-- ===== src/Backup.antt =====
-- internal/controller/backups/axonopsbackup_controller.go and
-- api/backups/v1alpha1/axonopsbackup_types.go: the resource and the pure parts of its controller. The
-- children have the remote configuration and the steps of the reconciler.
pub mod Remote
pub mod Steps
pub mod Tables
pub mod Sync
pub mod Records
use axonops_operator.Prelude.{
  ℕ, String, Bool, true, false, Option, none, some, List, [], ◌∷◌, nat_eq, or_default, is_some,
  ◌==◌, not, ◌&&◌, length, ltb, after_first, if◌then◌else◌,
}
use axonops_operator.K8s.{ObjectMeta, Condition, K8s}
use axonops_operator.Http.{ℤ, pos}
use axonops_operator.Status.{condition, failed_condition, ready, is_ready}
use axonops_operator.Client.Backup.{BackupPayload}

-- `BackupS3Config`; an unset text is empty.
pub record S3Config : Type 0 where
  pub region : String
  pub credentials_ref : String
  pub access_key_id : String
  pub secret_access_key : String
  pub storage_class : String
  pub acl : String
  pub encryption : String
  pub no_check_bucket : Bool
  pub disable_checksum : Bool

pub record SftpConfig : Type 0 where
  pub host : String
  pub credentials_ref : String
  pub user : String
  pub password : String
  pub key_file : String

pub record AzureConfig : Type 0 where
  pub account : String
  pub credentials_ref : String
  pub key : String
  pub endpoint : String
  pub use_msi : Bool
  pub msi_object_id : String
  pub msi_client_id : String
  pub msi_resource_id : String

pub record RemoteConfig : Type 0 where
  pub type : String
  pub path : String
  pub retention : String
  pub transfers : ℕ
  pub tps_limit : ℤ
  pub bandwidth_limit : String
  pub s3 : Option S3Config
  pub sftp : Option SftpConfig
  pub azure : Option AzureConfig

-- `none` stands for an absent `schedule` and for nil slices.
pub record BackupSpec : Type 0 where
  pub connection_ref : String
  pub cluster_name : String
  pub cluster_type : String
  pub tag : String
  pub datacenters : Option (List String)
  pub schedule : Option Bool
  pub schedule_expression : String
  pub local_retention : String
  pub timeout : String
  pub nodes : Option (List String)
  pub keyspaces : Option (List String)
  pub tables : List String
  pub remote : Option RemoteConfig

pub record BackupStatus : Type 0 where
  pub conditions : List Condition
  pub synced_backup_id : String
  pub last_sync_time : Option ℕ
  pub observed_generation : ℕ

pub record Backup : Type 0 where
  pub metadata : ObjectMeta
  pub spec : BackupSpec
  pub status : BackupStatus

abbrev pub backup_finalizer : String
backup_finalizer = "backups.axonops.com/backup-finalizer"

abbrev pub conditions_of : Backup → List Condition
conditions_of b = b.status.conditions

abbrev pub with_conditions : List Condition → Backup → Backup
with_conditions cs b = record b { status = record b.status { conditions = cs } }

abbrev pub with_finalizers : List String → Backup → Backup
with_finalizers fs b = record b { metadata = record b.metadata { finalizers = fs } }

-- A specification may name tables or keyspaces, not both.
unfoldable pub is_ambiguous : Backup → Bool
is_ambiguous b = ltb 0 (length b.spec.tables) && ltb 0 (length (or_default b.spec.keyspaces []))

-- The loop over the tables: the part behind the first dot, of those that have one.
unfoldable pub table_names : List String → List String
table_names [] = []
table_names (t ∷ ts) =
    let rest = table_names ts in elim (after_first "." t) [ none ↦ rest | some n ↦ n ∷ rest ]

-- The payload before its id and its remote storage are set.
unfoldable pub local_payload : Backup → BackupPayload
unfolding table_names
local_payload b = record {
  id = b.status.synced_backup_id;
  tag = b.spec.tag;
  datacenters = b.spec.datacenters;
  nodes = some (or_default b.spec.nodes []);
  tables = some (table_names b.spec.tables);
  keyspaces = some (or_default b.spec.keyspaces []);
  all_tables = nat_eq (length (table_names b.spec.tables)) 0;
  all_nodes = nat_eq (length (or_default b.spec.nodes [])) 0;
  local_retention_duration = b.spec.local_retention;
  remote = false;
  remote_type = "";
  remote_path = "";
  remote_retention_duration = "";
  remote_config = "";
  timeout = b.spec.timeout;
  transfers = 0;
  tps_limit = pos 0;
  bw_limit = "";
  schedule = or_default b.spec.schedule true;
  schedule_expr = b.spec.schedule_expression;
}

unfoldable pub with_remote : RemoteConfig → String → BackupPayload → BackupPayload
with_remote r config p = record p {
  remote = true;
  remote_type = r.type;
  remote_path = r.path;
  remote_retention_duration = r.retention;
  transfers = r.transfers;
  tps_limit = r.tps_limit;
  bw_limit = r.bandwidth_limit;
  remote_config = config;
}

-- The loop of `checkDrift` over the ids of the snapshots.
unfoldable pub snapshot_exists : List String → String → Bool
snapshot_exists [] id = false
snapshot_exists (i ∷ is') id = if i == id then true else snapshot_exists is' id

-- What a failed step hands to the status update.
unfoldable pub failed_backup : K8s → Backup → String → String → Backup
failed_backup k b reason message = record b {
  status = record b.status {
    conditions =
        k.set_status_condition b.status.conditions
          (failed_condition b.metadata.generation reason message);
    observed_generation = b.metadata.generation;
  };
}

unfoldable pub backup_drift_check_failed : K8s → Backup → String → Backup
backup_drift_check_failed k b message =
    with_conditions
      (k.set_status_condition b.status.conditions
        (condition "DriftCheckFailed" b.metadata.generation "DriftCheckFailed" message))
      b

unfoldable pub drifted_backup : K8s → Backup → Backup
drifted_backup k b = record b {
  status = record b.status {
    conditions = k.set_status_condition b.status.conditions (
        condition "DriftDetected" b.metadata.generation "ResourceDeleted"
          "Scheduled backup was deleted externally; recreating");
    synced_backup_id = "";
  };
}

abbrev pub ready_condition : ℕ → Condition
ready_condition generation = ready generation "Synced" "Backup schedule synced with AxonOps"

-- The object that a successful sync of generation `synced` hands to the status update.
unfoldable pub synced_backup : K8s → String → ℕ → ℕ → Backup → Backup
synced_backup k id synced time b = record b {
  status = record {
    conditions =
        k.remove_status_condition
          (k.remove_status_condition
            (k.set_status_condition b.status.conditions (ready_condition synced)) "Progressing")
          "Failed";
    synced_backup_id = id;
    last_sync_time = some time;
    observed_generation = synced;
  };
}

-- The check before the drift check: ready, at the observed generation, with an id.
unfoldable pub is_backup_synced : K8s → Backup → Bool
unfolding is_ready
is_backup_synced k b =
    is_ready (k.find_status_condition b.status.conditions "Ready")
    && nat_eq b.status.observed_generation b.metadata.generation
    && not (b.status.synced_backup_id == "")
