-- ===== src/Kafka/Connector.antt =====
-- internal/controller/kafka/axonopskafkaconnector_controller.go: the resource and the pure parts.
-- The steps of the reconciler are in the child `Steps`.
pub mod Steps
pub mod Records
use axonops_operator.Prelude.{ℕ, String, Bool, true, Option, some, List, nat_eq, ◌&&◌}
use axonops_operator.K8s.{ObjectMeta, Condition, K8s}
use axonops_operator.Status.{failed_condition, ready, is_ready}
use axonops_operator.Client.Kafka.{KafkaConnectorCreateRequest}

-- `config` is a map, in the order in which a run ranges over it.
pub record ConnectorSpec : Type 0 where
  pub connection_ref : String
  pub cluster_name : String
  pub connect_cluster_name : String
  pub name : String
  pub config : List (String × String)

pub record ConnectorStatus : Type 0 where
  pub conditions : List Condition
  pub connector_type : String
  pub synced : Bool
  pub last_sync_time : Option ℕ
  pub observed_generation : ℕ

pub record Connector : Type 0 where
  pub metadata : ObjectMeta
  pub spec : ConnectorSpec
  pub status : ConnectorStatus

abbrev pub connector_finalizer : String
connector_finalizer = "kafka.axonops.com/connector-finalizer"

abbrev pub ready_condition : ℕ → Condition
ready_condition generation = ready generation "Synced" "Kafka connector synced with AxonOps"

abbrev pub conditions_of : Connector → List Condition
conditions_of c = c.status.conditions

abbrev pub with_conditions : List Condition → Connector → Connector
with_conditions cs c = record c { status = record c.status { conditions = cs } }

abbrev pub with_finalizers : List String → Connector → Connector
with_finalizers fs c = record c { metadata = record c.metadata { finalizers = fs } }

unfoldable pub create_request : Connector → KafkaConnectorCreateRequest
create_request c = record { name = c.spec.name; config = c.spec.config }

-- The object that `setFailedCondition` hands to the status update.
unfoldable pub failed_connector : K8s → Connector → String → String → Connector
failed_connector k c reason message = record c {
  status = record c.status {
    conditions =
        k.set_status_condition c.status.conditions
          (failed_condition c.metadata.generation reason message);
    observed_generation = c.metadata.generation;
  };
}

-- The object that a successful sync of generation `synced` hands to the status update, with the
-- type that the API gave or the one that the status had.
unfoldable pub synced_connector : K8s → ℕ → String → ℕ → Connector → Connector
synced_connector k synced type time c = record c {
  status = record {
    conditions =
        k.remove_status_condition
          (k.set_status_condition c.status.conditions (ready_condition synced)) "Failed";
    connector_type = type;
    synced = true;
    last_sync_time = some time;
    observed_generation = synced;
  };
}

-- The idempotency check: ready, at the observed generation, and synced.
unfoldable pub is_up_to_date : K8s → Connector → Bool
unfolding is_ready
is_up_to_date k c =
    is_ready (k.find_status_condition c.status.conditions "Ready")
    && nat_eq c.status.observed_generation c.metadata.generation
    && c.status.synced
