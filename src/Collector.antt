-- ===== src/Collector.antt =====
-- internal/controller/alerts/axonopslogcollector_controller.go: the resource and the pure parts.
-- The API holds the log collectors of a cluster as one list, which the controller reads, changes
-- and writes back. The steps of the reconciler are in the child `Steps`.
pub mod Steps
pub mod Merge
pub mod Sync
pub mod Records
use axonops_operator.Prelude.{
  ℕ, String, Bool, true, false, Option, none, some, List, [], ◌∷◌, ◌++◌, nat_eq, ◌==◌, not, ◌&&◌,
  if◌then◌else◌,
}
use axonops_operator.Json.{null}
use axonops_operator.K8s.{ObjectMeta, Condition, K8s}
use axonops_operator.Status.{condition, failed_condition, ready, is_ready}
use axonops_operator.Client.Collector.{LogCollector}

pub record CollectorSpec : Type 0 where
  pub connection_ref : String
  pub cluster_name : String
  pub cluster_type : String
  pub name : String
  pub filename : String
  pub interval : String
  pub timeout : String
  pub date_format : String
  pub info_regex : String
  pub warning_regex : String
  pub error_regex : String
  pub debug_regex : String
  pub readonly : Bool

pub record CollectorStatus : Type 0 where
  pub conditions : List Condition
  pub synced_uuid : String
  pub last_sync_time : Option ℕ
  pub observed_generation : ℕ

pub record Collector : Type 0 where
  pub metadata : ObjectMeta
  pub spec : CollectorSpec
  pub status : CollectorStatus

abbrev pub collector_finalizer : String
collector_finalizer = "alerts.axonops.com/log-collector-finalizer"

abbrev pub with_conditions : List Condition → Collector → Collector
with_conditions cs c = record c { status = record c.status { conditions = cs } }

abbrev pub with_finalizers : List String → Collector → Collector
with_finalizers fs c = record c { metadata = record c.metadata { finalizers = fs } }

-- The loop of `Reconcile` over the list: the collectors of other files, and the id of the last
-- collector of the file, or the given one.
unfoldable pub separate : String → List LogCollector → String → List LogCollector × String
separate file [] id = ([], id)
separate file (l ∷ ls) id =
    let same = l.filename == file in
    let (others, found) = separate file ls (if same then l.uuid else id) in
    (if same then others else l ∷ others, found)

-- The entry of a resource.
unfoldable pub collector_entry : Collector → String → LogCollector
collector_entry c id = record {
  uuid = id;
  id = "";
  name = c.spec.name;
  interval = c.spec.interval;
  timeout = c.spec.timeout;
  filename = c.spec.filename;
  date_format = c.spec.date_format;
  info_regex = c.spec.info_regex;
  warning_regex = c.spec.warning_regex;
  error_regex = c.spec.error_regex;
  debug_regex = c.spec.debug_regex;
  readonly = c.spec.readonly;
  integrations = record {
    override_error = false;
    override_info = false;
    override_warning = false;
    routing = null;
    type = "";
  };
}

-- The list that a sync writes, and the id of its entry: `fresh` is the id of a new one.
unfoldable pub merge : Collector → String → List LogCollector → List LogCollector × String
unfolding separate collector_entry
merge c fresh existing =
    let (others, id) = separate c.spec.filename existing fresh in
    (others ++ collector_entry c id ∷ [], id)

-- The loop of `handleDeletion`: the collectors of other files.
unfoldable pub filtered : String → List LogCollector → List LogCollector
filtered file [] = []
filtered file (l ∷ ls) =
    let rest = filtered file ls in if l.filename == file then rest else l ∷ rest

-- A slice that was appended to from nil.
abbrev pub appended : List LogCollector → Option (List LogCollector)
appended [] = none
appended (l ∷ ls) = some (l ∷ ls)

-- The loop of `checkDrift`.
unfoldable pub collector_exists : List LogCollector → String → Bool
collector_exists [] id = false
collector_exists (l ∷ ls) id = if l.uuid == id then true else collector_exists ls id

-- What a failed step hands to the status update.
unfoldable pub failed_collector : K8s → Collector → String → String → Collector
failed_collector k c reason message = record c {
  status = record c.status {
    conditions =
        k.set_status_condition c.status.conditions
          (failed_condition c.metadata.generation reason message);
    observed_generation = c.metadata.generation;
  };
}

unfoldable pub drift_check_failed : K8s → Collector → String → Collector
drift_check_failed k c message =
    with_conditions
      (k.set_status_condition c.status.conditions
        (condition "DriftCheckFailed" c.metadata.generation "DriftCheckFailed" message))
      c

unfoldable pub drifted : K8s → Collector → Collector
drifted k c = record c {
  status = record c.status {
    conditions = k.set_status_condition c.status.conditions (
        condition "DriftDetected" c.metadata.generation "ResourceDeleted"
          "Log collector was deleted externally; recreating");
    synced_uuid = "";
  };
}

abbrev pub ready_condition : ℕ → Condition
ready_condition generation = ready generation "Synced" "Log collector synced with AxonOps"

-- The object that a successful sync of generation `synced` hands to the status update.
unfoldable pub synced_collector : K8s → String → ℕ → ℕ → Collector → Collector
synced_collector k id synced time c = record c {
  status = record {
    conditions =
        k.remove_status_condition
          (k.set_status_condition c.status.conditions (ready_condition synced)) "Failed";
    synced_uuid = id;
    last_sync_time = some time;
    observed_generation = synced;
  };
}

-- The check before the drift check: ready, at the observed generation, with an id.
unfoldable pub is_synced : K8s → Collector → Bool
unfolding is_ready
is_synced k c =
    is_ready (k.find_status_condition c.status.conditions "Ready")
    && nat_eq c.status.observed_generation c.metadata.generation
    && not (c.status.synced_uuid == "")
