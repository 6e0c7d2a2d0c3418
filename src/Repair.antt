-- ===== src/Repair.antt =====
-- internal/controller/alerts/axonopsscheduledrepair_controller.go: the resource and the pure parts.
-- The steps of the reconciler are in the child `Steps`.
pub mod Steps
pub mod Params
pub mod Sync
pub mod Repeats
use axonops_operator.Prelude.{
  ℕ, zero, String, Bool, true, Option, none, some, List, [], ◌∷◌, nat_eq, ◌==◌, not, ◌&&◌,
  if◌then◌else◌,
}
use axonops_operator.K8s.{ObjectMeta, Condition, K8s}
use axonops_operator.Status.{condition, failed_condition, ready, is_ready}
use axonops_operator.Client.Repair.{ScheduledRepairParams, ScheduledRepairEntry}

-- A `none` among the lists is the nil slice.
pub record RepairSpec : Type 0 where
  pub connection_ref : String
  pub cluster_name : String
  pub cluster_type : String
  pub tag : String
  pub schedule_expression : String
  pub keyspace : String
  pub tables : Option (List String)
  pub blacklisted_tables : Option (List String)
  pub nodes : Option (List String)
  pub specific_data_centers : Option (List String)
  pub parallelism : String
  pub segmented : Bool
  pub segments_per_node : ℕ
  pub incremental : Bool
  pub job_threads : ℕ
  pub primary_range : Bool
  pub optimise_streams : Bool
  pub skip_paxos : Bool
  pub paxos_only : Bool

pub record RepairStatus : Type 0 where
  pub conditions : List Condition
  pub synced_repair_id : String
  pub last_sync_time : Option ℕ
  pub observed_generation : ℕ

pub record Repair : Type 0 where
  pub metadata : ObjectMeta
  pub spec : RepairSpec
  pub status : RepairStatus

abbrev pub repair_finalizer : String
repair_finalizer = "alerts.axonops.com/scheduled-repair-finalizer"

abbrev pub conditions_of : Repair → List Condition
conditions_of r = r.status.conditions

abbrev pub with_conditions : List Condition → Repair → Repair
with_conditions cs r = record r { status = record r.status { conditions = cs } }

abbrev pub with_finalizers : List String → Repair → Repair
with_finalizers fs r = record r { metadata = record r.metadata { finalizers = fs } }

-- A nil slice becomes an empty one.
abbrev not_nil : Option (List String) → Option (List String)
not_nil none = some []
not_nil (some xs) = some xs

abbrev at_least_one : ℕ → ℕ
at_least_one n = if nat_eq n 0 then 1 else n

paxos : Bool → Bool → String
paxos skip only = if skip then "Skip Paxos" else if only then "Paxos Only" else "Default"

-- `buildRepairParams`
unfoldable pub build_repair_params : Repair → ScheduledRepairParams
unfolding paxos
build_repair_params r = record {
  tag = r.spec.tag;
  keyspace = r.spec.keyspace;
  tables = not_nil r.spec.tables;
  blacklisted_tables = not_nil r.spec.blacklisted_tables;
  nodes = not_nil r.spec.nodes;
  segments_per_node = at_least_one r.spec.segments_per_node;
  segmented = r.spec.segmented;
  incremental = r.spec.incremental;
  job_threads = at_least_one r.spec.job_threads;
  schedule = true;
  schedule_expr = r.spec.schedule_expression;
  primary_range = r.spec.primary_range;
  parallelism = if r.spec.parallelism == "" then "Parallel" else r.spec.parallelism;
  optimise_streams = r.spec.optimise_streams;
  specific_data_centers = not_nil r.spec.specific_data_centers;
  paxos = paxos r.spec.skip_paxos r.spec.paxos_only;
  skip_paxos = r.spec.skip_paxos;
  paxos_only = r.spec.paxos_only;
}

-- Whether the first of an entry's parameters has the tag.
abbrev pub has_tag : String → List String → Bool
has_tag tag [] = Bool.false
has_tag tag (t ∷ ts) = t == tag

-- `findRepairIDByTag`: the first entry whose first parameters have the tag, or "".
unfoldable pub find_repair_id_by_tag : List ScheduledRepairEntry → String → String
find_repair_id_by_tag [] tag = ""
find_repair_id_by_tag (e ∷ es) tag =
    if has_tag tag e.tags then e.id else find_repair_id_by_tag es tag

-- The loop of `checkDrift` over the repairs of the cluster.
unfoldable pub repair_exists : List ScheduledRepairEntry → String → Bool
repair_exists [] id = Bool.false
repair_exists (e ∷ es) id = if e.id == id then true else repair_exists es id

-- What a failed step hands to the status update.
unfoldable pub failed_repair : K8s → Repair → String → String → Repair
failed_repair k r reason message = record r {
  status = record r.status {
    conditions =
        k.set_status_condition r.status.conditions
          (failed_condition r.metadata.generation reason message);
    observed_generation = r.metadata.generation;
  };
}

unfoldable pub drift_check_failed : K8s → Repair → String → Repair
drift_check_failed k r message =
    with_conditions
      (k.set_status_condition r.status.conditions
        (condition "DriftCheckFailed" r.metadata.generation "DriftCheckFailed" message))
      r

unfoldable pub drifted : K8s → Repair → Repair
drifted k r = record r {
  status = record r.status {
    conditions = k.set_status_condition r.status.conditions (
        condition "DriftDetected" r.metadata.generation "ResourceDeleted"
          "Scheduled repair was deleted externally; recreating");
    synced_repair_id = "";
  };
}

abbrev pub ready_condition : ℕ → Condition
ready_condition generation = ready generation "Synced" "Scheduled repair synced with AxonOps"

-- The object that a successful sync of generation `synced` hands to the status update.
unfoldable pub synced_repair : K8s → String → ℕ → ℕ → Repair → Repair
synced_repair k id synced time r = record r {
  status = record {
    conditions =
        k.remove_status_condition
          (k.set_status_condition r.status.conditions (ready_condition synced)) "Failed";
    synced_repair_id = id;
    last_sync_time = some time;
    observed_generation = synced;
  };
}

-- The check before the drift check: ready, at the observed generation, with an id.
unfoldable pub is_synced : K8s → Repair → Bool
unfolding is_ready
is_synced k r =
    is_ready (k.find_status_condition r.status.conditions "Ready")
    && nat_eq r.status.observed_generation r.metadata.generation
    && not (r.status.synced_repair_id == "")
