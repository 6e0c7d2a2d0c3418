-- ===== src/Kafka/Topic.antt =====
-- internal/controller/kafka/axonopskafkatopic_controller.go: the resource and the pure parts. The
-- steps of the reconciler are in the child `Steps`.
pub mod Steps
pub mod Sync
pub mod Records
pub mod Deletion
pub mod Settled
pub mod Observed
use axonops_operator.Prelude.{ℕ, String, Bool, true, Option, some, List, [], ◌∷◌, nat_eq, ◌&&◌}
use axonops_operator.K8s.{ObjectMeta, Condition, K8s}
use axonops_operator.Status.{failed_condition, ready, is_ready}
use axonops_operator.Client.Kafka.{
  KafkaTopicConfig, KafkaTopicCreateRequest, KafkaTopicConfigUpdate,
}

-- `config` is a map, in the order in which a run ranges over it.
pub record TopicSpec : Type 0 where
  pub connection_ref : String
  pub cluster_name : String
  pub name : String
  pub partitions : ℕ
  pub replication_factor : ℕ
  pub config : List (String × String)

pub record TopicStatus : Type 0 where
  pub conditions : List Condition
  pub synced : Bool
  pub last_sync_time : Option ℕ
  pub observed_generation : ℕ

pub record Topic : Type 0 where
  pub metadata : ObjectMeta
  pub spec : TopicSpec
  pub status : TopicStatus

abbrev pub topic_finalizer : String
topic_finalizer = "kafka.axonops.com/topic-finalizer"

abbrev pub ready_condition : ℕ → Condition
ready_condition generation = ready generation "Synced" "Kafka topic synced with AxonOps"

abbrev pub conditions_of : Topic → List Condition
conditions_of t = t.status.conditions

abbrev pub with_conditions : List Condition → Topic → Topic
with_conditions cs t = record t { status = record t.status { conditions = cs } }

abbrev pub with_finalizers : List String → Topic → Topic
with_finalizers fs t = record t { metadata = record t.metadata { finalizers = fs } }

unfoldable pub map_to_topic_configs : List (String × String) → List KafkaTopicConfig
map_to_topic_configs [] = []
map_to_topic_configs ((k, v) ∷ m) = record { name = k; value = v } ∷ map_to_topic_configs m

-- The loop over the map that makes every entry a "SET".
unfoldable pub config_updates : List (String × String) → List KafkaTopicConfigUpdate
config_updates [] = []
config_updates ((k, v) ∷ m) = record { key = k; value = v; op = "SET" } ∷ config_updates m

unfoldable pub create_request : Topic → KafkaTopicCreateRequest
unfolding map_to_topic_configs
create_request t = record {
  topic_name = t.spec.name;
  partition_count = t.spec.partitions;
  replication_factor = t.spec.replication_factor;
  configs = map_to_topic_configs t.spec.config;
}

-- The object that `setFailedCondition` hands to the status update.
unfoldable pub failed_topic : K8s → Topic → String → String → Topic
failed_topic k t reason message = record t {
  status = record t.status {
    conditions =
        k.set_status_condition t.status.conditions
          (failed_condition t.metadata.generation reason message);
    observed_generation = t.metadata.generation;
  };
}

-- The object that a successful sync of generation `synced` hands to the status update.
unfoldable pub synced_topic : K8s → ℕ → ℕ → Topic → Topic
synced_topic k synced time t = record t {
  status = record {
    conditions =
        k.remove_status_condition
          (k.set_status_condition t.status.conditions (ready_condition synced)) "Failed";
    synced = true;
    last_sync_time = some time;
    observed_generation = synced;
  };
}

-- The idempotency check: ready, at the observed generation, and synced.
unfoldable pub is_up_to_date : K8s → Topic → Bool
unfolding is_ready
is_up_to_date k t =
    is_ready (k.find_status_condition t.status.conditions "Ready")
    && nat_eq t.status.observed_generation t.metadata.generation
    && t.status.synced
