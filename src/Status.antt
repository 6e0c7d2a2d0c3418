-- ===== src/Status.antt =====
-- The conditions that the controllers set on their resources, and what they read of them.
use mathlib.Core.Bool.{false≢true}
use axonops_operator.Prelude.{ℕ, String, ◌≢◌, Bool, false, Option, none, some, ◌==◌, eq_iff}
use axonops_operator.K8s.{Condition}

abbrev pub condition : String → ℕ → String → String → Condition
condition type generation reason message = record {
  type = type;
  status = "True";
  observed_generation = generation;
  reason = reason;
  message = message;
}

abbrev pub failed_condition : ℕ → String → String → Condition
failed_condition = condition "Failed"

abbrev pub ready : ℕ → String → String → Condition
ready = condition "Ready"

-- `readyCond != nil && readyCond.Status == metav1.ConditionTrue`
unfoldable pub is_ready : Option Condition → Bool
is_ready none = false
is_ready (some c) = c.status == "True"

pub ready-ne-failed : ◌≢◌ {A = String} "Ready" "Failed"
ready-ne-failed p = false≢true ((eq_iff "Ready" "Failed").1 p)

pub failed-ne-ready : ◌≢◌ {A = String} "Failed" "Ready"
failed-ne-ready p = false≢true ((eq_iff "Failed" "Ready").1 p)
