-- ===== src/Kafka/Acl.antt =====
-- internal/controller/kafka/axonopskafkaacl_controller.go: the resource and the pure parts. The
-- steps of the reconciler are in the child `Steps`.
pub mod Steps
pub mod Sync
pub mod Records
use axonops_operator.Prelude.{
  ℕ, String, Bool, true, Option, some, List, nat_eq, ◌==◌, ◌&&◌, if◌then◌else◌,
}
use axonops_operator.K8s.{ObjectMeta, Condition, K8s}
use axonops_operator.Status.{failed_condition, ready, is_ready}
use axonops_operator.Client.Kafka.{KafkaAcl}

pub record AclSpec : Type 0 where
  pub connection_ref : String
  pub cluster_name : String
  pub resource_type : String
  pub resource_name : String
  pub resource_pattern_type : String
  pub principal : String
  pub host : String
  pub operation : String
  pub permission_type : String

pub record AclStatus : Type 0 where
  pub conditions : List Condition
  pub synced : Bool
  pub last_sync_time : Option ℕ
  pub observed_generation : ℕ

pub record Acl : Type 0 where
  pub metadata : ObjectMeta
  pub spec : AclSpec
  pub status : AclStatus

abbrev pub acl_finalizer : String
acl_finalizer = "kafka.axonops.com/acl-finalizer"

abbrev pub ready_condition : ℕ → Condition
ready_condition generation = ready generation "Synced" "Kafka ACL synced with AxonOps"

abbrev pub conditions_of : Acl → List Condition
conditions_of a = a.status.conditions

abbrev pub with_conditions : List Condition → Acl → Acl
with_conditions cs a = record a { status = record a.status { conditions = cs } }

abbrev pub with_finalizers : List String → Acl → Acl
with_finalizers fs a = record a { metadata = record a.metadata { finalizers = fs } }

-- `buildACLPayload`
unfoldable pub build_acl_payload : Acl → KafkaAcl
build_acl_payload a = record {
  resource_type = a.spec.resource_type;
  resource_name = a.spec.resource_name;
  resource_pattern_type =
      if a.spec.resource_pattern_type == "" then "LITERAL" else a.spec.resource_pattern_type;
  principal = a.spec.principal;
  host = if a.spec.host == "" then "*" else a.spec.host;
  operation = a.spec.operation;
  permission_type = a.spec.permission_type;
}

-- The object that `setFailedCondition` hands to the status update.
unfoldable pub failed_acl : K8s → Acl → String → String → Acl
failed_acl k a reason message = record a {
  status = record a.status {
    conditions =
        k.set_status_condition a.status.conditions
          (failed_condition a.metadata.generation reason message);
    observed_generation = a.metadata.generation;
  };
}

-- The object that a successful sync of generation `synced` hands to the status update.
unfoldable pub synced_acl : K8s → ℕ → ℕ → Acl → Acl
synced_acl k synced time a = record a {
  status = record {
    conditions =
        k.remove_status_condition
          (k.set_status_condition a.status.conditions (ready_condition synced)) "Failed";
    synced = true;
    last_sync_time = some time;
    observed_generation = synced;
  };
}

-- The idempotency check: ready, at the observed generation, and synced.
unfoldable pub is_up_to_date : K8s → Acl → Bool
unfolding is_ready
is_up_to_date k a =
    is_ready (k.find_status_condition a.status.conditions "Ready")
    && nat_eq a.status.observed_generation a.metadata.generation
    && a.status.synced
