-- ===== src/Healthcheck.antt =====
-- internal/controller/alerts/axonopshealthcheck{http,tcp,shell}_controller.go: what the three
-- reconcilers share. They have the same code but for the specification, the kind of entry that they
-- build from it, the list of the payload that they keep it in, and some texts; a `Kind` holds these.
-- The steps of the reconcilers are in the child `Steps`, the three kinds in `Http`, `Tcp` and
-- `Shell`.
pub mod Steps
pub mod Http
pub mod Tcp
pub mod Shell
pub mod Lists
pub mod Sync
pub mod Records
pub mod Concurrent
pub mod Accepted
use axonops_operator.Prelude.{
  ℕ, String, ◌≡◌, Bool, true, false, Option, none, some, List, [], ◌∷◌, nat_eq, ◌==◌, not, ◌&&◌,
  if◌then◌else◌,
}
use axonops_operator.K8s.{ObjectMeta, Condition, K8s}
use axonops_operator.Status.{condition, failed_condition, ready, is_ready}
use axonops_operator.Client.Healthcheck.Records.{Healthchecks, HealthcheckIntegrations}

pub record HealthcheckStatus : Type 0 where
  pub conditions : List Condition
  pub synced_healthcheck_id : String
  pub last_sync_time : Option ℕ
  pub observed_generation : ℕ

-- The resource, with a specification of its kind.
pub record Healthcheck (S : Type 0) : Type 0 where
  pub metadata : ObjectMeta
  pub spec : S
  pub status : HealthcheckStatus

-- `E` is the kind of entry in the payload.
pub record Kind (S E : Type 0) : Type 0 where
  pub connection_ref : S → String
  pub cluster_name : S → String
  pub cluster_type : S → String
  pub build_healthcheck_entry : Healthcheck S → E
  pub id_of : E → String
  pub set_id : String → E → E
  pub checks : Healthchecks → Option (List E)
  pub with_checks : Option (List E) → Healthchecks → Healthchecks
  pub finalizer : String
  pub drift_message : String
  pub controller : String

-- What makes a kind fit its code: an entry carries the id of the resource, and its list is one
-- field of the payload.
pub record IsLawful {S E : Type 0} (K : Kind S E) : Type 0 where
  pub id-build :
      (h : Healthcheck S) → K.id_of (K.build_healthcheck_entry h) ≡ h.status.synced_healthcheck_id
  pub id-set_id : (id : String) (e : E) → K.id_of (K.set_id id e) ≡ id
  pub checks-with_checks :
      (l : Option (List E)) (p : Healthchecks) → K.checks (K.with_checks l p) ≡ l
  pub with_checks-checks : (p : Healthchecks) → K.with_checks (K.checks p) p ≡ p
  pub with_checks-with_checks :
      (l m : Option (List E)) (p : Healthchecks)
      → K.with_checks l (K.with_checks m p) ≡ K.with_checks l p

module _ {S : Type 0} where
  abbrev pub conditions_of : Healthcheck S → List Condition
  conditions_of h = h.status.conditions

  abbrev pub with_conditions : List Condition → Healthcheck S → Healthcheck S
  with_conditions cs h = record h { status = record h.status { conditions = cs } }

  abbrev pub with_finalizers : List String → Healthcheck S → Healthcheck S
  with_finalizers fs h = record h { metadata = record h.metadata { finalizers = fs } }

module _ {E : Type 0} (id_of : E → String) where
  -- The loop of `checkDrift`.
  unfoldable pub healthcheck_exists : List E → String → Bool
  healthcheck_exists [] id = false
  healthcheck_exists (e ∷ es) id = if id_of e == id then true else healthcheck_exists es id

  -- The loop of `Reconcile` over the entries that were read: the first one with the id is
  -- overwritten. `none` means that there is none.
  unfoldable pub replace_entry : String → E → List E → Option (List E)
  replace_entry id entry [] = none
  replace_entry id entry (e ∷ es) =
      if id_of e == id
      then some (entry ∷ es)
      else elim (replace_entry id entry es) [ none ↦ none | some es' ↦ some (e ∷ es') ]

  -- The loop of `handleDeletion`.
  unfoldable pub without_entry : String → List E → List E
  without_entry id [] = []
  without_entry id (e ∷ es) =
      let rest = without_entry id es in if id_of e == id then rest else e ∷ rest

abbrev pub ready_condition : ℕ → Condition
ready_condition generation = ready generation "Synced" "Healthcheck synced with AxonOps"

-- The integrations of an entry that is built are the zero value.
abbrev pub no_integrations : HealthcheckIntegrations
no_integrations = record {
  type = "";
  routing = none;
  override_info = false;
  override_warning = false;
  override_error = false;
}

module _ {S : Type 0} (k : K8s) where
  -- What a failed step hands to the status update.
  unfoldable pub failed_healthcheck : Healthcheck S → String → String → Healthcheck S
  failed_healthcheck h reason message = record h {
    status = record h.status {
      conditions =
          k.set_status_condition h.status.conditions
            (failed_condition h.metadata.generation reason message);
      observed_generation = h.metadata.generation;
    };
  }

  unfoldable pub drifted_healthcheck : String → Healthcheck S → Healthcheck S
  drifted_healthcheck message h = record h {
    status = record h.status {
      conditions =
          k.set_status_condition h.status.conditions
            (condition "DriftDetected" h.metadata.generation "ResourceDeleted" message);
      synced_healthcheck_id = "";
    };
  }

  -- The object that a successful sync of generation `synced` hands to the status update.
  unfoldable pub synced_healthcheck : String → ℕ → ℕ → Healthcheck S → Healthcheck S
  synced_healthcheck id synced time h = record h {
    status = record {
      conditions =
          k.remove_status_condition
            (k.set_status_condition h.status.conditions (ready_condition synced)) "Failed";
      synced_healthcheck_id = id;
      last_sync_time = some time;
      observed_generation = synced;
    };
  }

  -- The check before the drift check: ready, at the observed generation, with an id.
  unfoldable pub is_healthcheck_synced : Healthcheck S → Bool
  unfolding is_ready
  is_healthcheck_synced h =
      is_ready (k.find_status_condition h.status.conditions "Ready")
      && nat_eq h.status.observed_generation h.metadata.generation
      && not (h.status.synced_healthcheck_id == "")
