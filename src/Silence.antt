-- ===== src/Silence.antt =====
-- internal/controller/alerts/axonopssilencewindow_controller.go: the resource and the pure parts. The
-- steps of the reconciler are in the child `Steps`.
pub mod Steps
pub mod Sync
use axonops_operator.Prelude.{
  ℕ, String, Bool, true, false, Option, none, some, List, [], ◌∷◌, nat_eq, or_default, ◌==◌, not,
  ◌&&◌, if◌then◌else◌,
}
use axonops_operator.K8s.{ObjectMeta, Condition, K8s}
use axonops_operator.Status.{condition, failed_condition, ready, is_ready}
use axonops_operator.Client.Silence.{SilenceWindow}

-- `active` may be absent, and `datacenters` nil.
pub record SilenceSpec : Type 0 where
  pub connection_ref : String
  pub cluster_name : String
  pub cluster_type : String
  pub duration : String
  pub active : Option Bool
  pub recurring : Bool
  pub cron_expression : String
  pub datacenters : Option (List String)

pub record SilenceStatus : Type 0 where
  pub conditions : List Condition
  pub synced_silence_id : String
  pub last_sync_time : Option ℕ
  pub observed_generation : ℕ

pub record Silence : Type 0 where
  pub metadata : ObjectMeta
  pub spec : SilenceSpec
  pub status : SilenceStatus

abbrev pub silence_finalizer : String
silence_finalizer = "alerts.axonops.com/silence-window-finalizer"

abbrev pub conditions_of : Silence → List Condition
conditions_of s = s.status.conditions

abbrev pub with_conditions : List Condition → Silence → Silence
with_conditions cs s = record s { status = record s.status { conditions = cs } }

abbrev pub with_finalizers : List String → Silence → Silence
with_finalizers fs s = record s { metadata = record s.metadata { finalizers = fs } }

-- A window is active unless its specification says otherwise.
unfoldable pub is_active : Silence → Bool
is_active s = or_default s.spec.active true

unfoldable pub silence_payload : Silence → String → SilenceWindow
silence_payload s id = record {
  id = id;
  active = true;
  cron_expr = s.spec.cron_expression;
  is_recurring = s.spec.recurring;
  duration = s.spec.duration;
  dcs = some (or_default s.spec.datacenters []);
}

-- The loop of `checkDrift` over the ids of the windows.
unfoldable pub silence_exists : List String → String → Bool
silence_exists [] id = false
silence_exists (i ∷ is') id = if i == id then true else silence_exists is' id

-- What a failed step hands to the status update.
unfoldable pub failed_silence : K8s → Silence → String → String → Silence
failed_silence k s reason message = record s {
  status = record s.status {
    conditions =
        k.set_status_condition s.status.conditions
          (failed_condition s.metadata.generation reason message);
    observed_generation = s.metadata.generation;
  };
}

unfoldable pub drift_check_failed : K8s → Silence → String → Silence
drift_check_failed k s message =
    with_conditions
      (k.set_status_condition s.status.conditions
        (condition "DriftCheckFailed" s.metadata.generation "DriftCheckFailed" message))
      s

unfoldable pub drifted : K8s → Silence → Silence
drifted k s = record s {
  status = record s.status {
    conditions = k.set_status_condition s.status.conditions (
        condition "DriftDetected" s.metadata.generation "ResourceDeleted"
          "Silence window was deleted externally; recreating");
    synced_silence_id = "";
  };
}

abbrev pub ready_condition : ℕ → Condition
ready_condition generation = ready generation "Synced" "Silence window synced with AxonOps"

-- The object that a successful sync of generation `synced` hands to the status update.
unfoldable pub synced_silence : K8s → String → ℕ → ℕ → Silence → Silence
synced_silence k id synced time s = record s {
  status = record {
    conditions =
        k.remove_status_condition
          (k.set_status_condition s.status.conditions (ready_condition synced)) "Failed";
    synced_silence_id = id;
    last_sync_time = some time;
    observed_generation = synced;
  };
}

-- The check before the drift check: ready, at the observed generation, with an id.
unfoldable pub is_synced : K8s → Silence → Bool
unfolding is_ready
is_synced k s =
    is_ready (k.find_status_condition s.status.conditions "Ready")
    && nat_eq s.status.observed_generation s.metadata.generation
    && not (s.status.synced_silence_id == "")
