-- ===== src/Adaptive.antt =====
-- internal/controller/alerts/axonopsadaptiverepair_controller.go and
-- api/alerts/v1alpha1/axonopsadaptiverepair_types.go: the resource and the pure parts. The steps of
-- the reconciler are in the child `Steps`.
pub mod Steps
pub mod Settled
use axonops_operator.Prelude.{
  ℕ, String, Bool, true, false, Option, none, some, List, [], ◌∷◌, nat_eq, or_default, is_some,
  ◌==◌, ◌&&◌, if◌then◌else◌, not,
}
use axonops_operator.K8s.{ObjectMeta, Condition, K8s}
use axonops_operator.Http.{ℤ, pos, negsuc}
use axonops_operator.Status.{condition, failed_condition, ready, is_ready}
use axonops_operator.Client.Adaptive.{AdaptiveRepairSettings}

-- `none` where the code has a nil pointer or a nil slice.
pub record AdaptiveSpec : Type 0 where
  pub connection_ref : String
  pub cluster_name : String
  pub cluster_type : String
  pub active : Option Bool
  pub gc_grace_threshold : Option ℕ
  pub table_parallelism : Option ℕ
  pub excluded_tables : Option (List String)
  pub filter_twcs_tables : Option Bool
  pub segment_retries : Option ℕ
  pub segment_target_size_mb : Option ℕ
  pub segment_timeout : String
  pub max_segments_per_table : Option ℕ

pub record AdaptiveStatus : Type 0 where
  pub conditions : List Condition
  pub last_sync_time : Option ℕ
  pub observed_generation : ℕ

pub record AdaptiveRepair : Type 0 where
  pub metadata : ObjectMeta
  pub spec : AdaptiveSpec
  pub status : AdaptiveStatus

abbrev pub adaptive_finalizer : String
adaptive_finalizer = "alerts.axonops.com/adaptive-repair-finalizer"

abbrev pub conditions_of : AdaptiveRepair → List Condition
conditions_of a = a.status.conditions

abbrev pub with_conditions : List Condition → AdaptiveRepair → AdaptiveRepair
with_conditions cs a = record a { status = record a.status { conditions = cs } }

abbrev pub with_finalizers : List String → AdaptiveRepair → AdaptiveRepair
with_finalizers fs a = record a { metadata = record a.metadata { finalizers = fs } }

unfoldable pub build_adaptive_repair_settings : AdaptiveRepair → AdaptiveRepairSettings
build_adaptive_repair_settings a = record {
  active = or_default a.spec.active true;
  blacklisted_tables = some (or_default a.spec.excluded_tables []);
  filter_twcs_tables = or_default a.spec.filter_twcs_tables true;
  gc_grace_threshold = pos (or_default a.spec.gc_grace_threshold 86400);
  max_segments_per_table = pos (or_default a.spec.max_segments_per_table 0);
  segment_retries = pos (or_default a.spec.segment_retries 3);
  segment_target_size_mb = pos (or_default a.spec.segment_target_size_mb 0);
  segment_timeout = if a.spec.segment_timeout == "" then "2h" else a.spec.segment_timeout;
  table_parallelism = pos (or_default a.spec.table_parallelism 10);
}

-- `reflect.DeepEqual`, by the kinds of field.
unfoldable pub same_bool : Bool → Bool → Bool
same_bool a b = if a then b else not b

unfoldable pub same_int : ℤ → ℤ → Bool
same_int (pos a) (pos b) = nat_eq a b
same_int (negsuc a) (negsuc b) = nat_eq a b
same_int _ _ = false

unfoldable pub same_texts : List String → List String → Bool
same_texts [] [] = true
same_texts (a ∷ as') (b ∷ bs) = a == b && same_texts as' bs
same_texts _ _ = false

-- Nil tables count as none.
unfoldable pub settings_equal : AdaptiveRepairSettings → AdaptiveRepairSettings → Bool
unfolding same_bool same_int same_texts
settings_equal d c =
    same_bool d.active c.active
    && same_texts (or_default d.blacklisted_tables []) (or_default c.blacklisted_tables [])
    && same_bool d.filter_twcs_tables c.filter_twcs_tables
    && same_int d.gc_grace_threshold c.gc_grace_threshold
    && same_int d.max_segments_per_table c.max_segments_per_table
    && same_int d.segment_retries c.segment_retries
    && same_int d.segment_target_size_mb c.segment_target_size_mb
    && d.segment_timeout == c.segment_timeout
    && same_int d.table_parallelism c.table_parallelism

-- What a failed step hands to the status update.
unfoldable pub failed_adaptive : K8s → AdaptiveRepair → String → String → AdaptiveRepair
failed_adaptive k a reason message = record a {
  status = record a.status {
    conditions =
        k.set_status_condition a.status.conditions
          (failed_condition a.metadata.generation reason message);
    observed_generation = a.metadata.generation;
  };
}

unfoldable pub drifted_adaptive : K8s → AdaptiveRepair → AdaptiveRepair
drifted_adaptive k a = record a {
  status = record a.status {
    conditions = k.set_status_condition a.status.conditions (
        condition "DriftDetected" a.metadata.generation "SettingsChanged"
          "Adaptive repair settings were changed externally; reapplying");
    last_sync_time = none;
  };
}

abbrev pub ready_condition : ℕ → Condition
ready_condition generation =
    ready generation "Synced" "Adaptive repair settings synced with AxonOps"

-- The object that a sync of generation `synced` hands to the status update.
unfoldable pub synced_adaptive : K8s → ℕ → ℕ → AdaptiveRepair → AdaptiveRepair
synced_adaptive k synced time a = record a {
  status = record {
    conditions =
        k.remove_status_condition
          (k.set_status_condition a.status.conditions (ready_condition synced)) "Failed";
    last_sync_time = some time;
    observed_generation = synced;
  };
}

-- The check before the drift check: ready, at the observed generation, synced before.
unfoldable pub is_adaptive_synced : K8s → AdaptiveRepair → Bool
unfolding is_ready
is_adaptive_synced k a =
    is_ready (k.find_status_condition a.status.conditions "Ready")
    && nat_eq a.status.observed_generation a.metadata.generation
    && is_some a.status.last_sync_time
