-- ===== src/K8s.antt =====
-- The Kubernetes types that the controllers keep, and what they call of the Kubernetes libraries
-- (k8s.io/apimachinery, sigs.k8s.io/controller-runtime), whose functions are parameters here.
use axonops_operator.Prelude.{
  ℕ, ◌≡◌, ◌≢◌, String, Bool, true, false, Option, none, some, List, if◌then◌else◌,
}
use axonops_operator.Errors.{Error}

pub record Key : Type 0 where
  pub namespace : String
  pub name : String

-- `metav1.ObjectMeta`
pub record ObjectMeta : Type 0 where
  pub namespace : String
  pub name : String
  pub generation : ℕ
  pub resource_version : String
  pub deletion_timestamp : Option ℕ
  pub finalizers : List String

-- `metav1.Condition`, without the time of its last transition
pub record Condition : Type 0 where
  pub type : String
  pub status : String
  pub observed_generation : ℕ
  pub reason : String
  pub message : String

-- `ctrl.Result` and the error beside it; `requeue_after` is in seconds, and 0 asks for none.
pub record Outcome : Type 0 where
  pub requeue_after : ℕ
  pub error : Option Error

abbrev pub done : Outcome
done = record { requeue_after = 0; error = none }

abbrev pub requeue : ℕ → Outcome
requeue n = record { requeue_after = n; error = none }

abbrev pub fail : Option Error → Outcome
fail e = record { requeue_after = 0; error = e }

-- Functions of the Kubernetes libraries.
pub record K8s : Type 0 where
  pub find_status_condition : List Condition → String → Option Condition
  pub set_status_condition : List Condition → Condition → List Condition
  pub remove_status_condition : List Condition → String → List Condition
  pub contains_finalizer : List String → String → Bool
  pub add_finalizer : List String → String → List String
  pub remove_finalizer : List String → String → List String
  pub ignore_not_found : Error → Option Error
  pub is_not_found : Error → Bool
  pub is_conflict : Error → Bool
  pub is_timeout : Error → Bool
  pub is_server_timeout : Error → Bool
  pub is_invalid : Error → Bool
  pub is_internal_error : Error → Bool

-- What they are documented to do.
pub record IsLawful (k : K8s) : Type 0 where
  pub find-set_self :
      (cs : List Condition) (c : Condition)
      → k.find_status_condition (k.set_status_condition cs c) c.type ≡ some c
  pub find-set_ne :
      (cs : List Condition) (c : Condition) (t : String)
      → c.type ≢ t
      → k.find_status_condition (k.set_status_condition cs c) t ≡ k.find_status_condition cs t
  pub find-remove_self :
      (cs : List Condition) (t : String)
      → k.find_status_condition (k.remove_status_condition cs t) t ≡ none
  pub find-remove_ne :
      (cs : List Condition) (t u : String)
      → t ≢ u
      → k.find_status_condition (k.remove_status_condition cs t) u ≡ k.find_status_condition cs u
  pub contains-add :
      (fs : List String) (f : String) → k.contains_finalizer (k.add_finalizer fs f) f ≡ true
  pub contains-remove :
      (fs : List String) (f : String) → k.contains_finalizer (k.remove_finalizer fs f) f ≡ false
  pub ignore_not_found_lem :
      (e : Error) → k.ignore_not_found e ≡ (if k.is_not_found e then none else some e)
