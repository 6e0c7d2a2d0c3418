-- ===== src/Healthcheck/Steps.antt =====
-- The steps of the reconcilers of healthchecks, for each kind of healthcheck.
use axonops_operator.Prelude.{
  ℕ, String, Bool, false, none, some, List, [], ◌∷◌, ◌++◌, nat_eq, is_some, or_default, ◌==◌,
  if◌then◌else◌,
}
use axonops_operator.Errors.{
  Error, Result, ok, err, as_api_error, retryable, is_connection_paused, safe_condition_msg,
}
use axonops_operator.K8s.{Key, K8s, Outcome, done, requeue, fail}
use axonops_operator.Http.{Std, Env, M, pure, get, update, update_status, now, new_uuid, ◌>>=◌}
use axonops_operator.Client.{Client}
use axonops_operator.Client.Healthcheck.{get_healthchecks, update_healthchecks}
use axonops_operator.Client.Healthcheck.Records.{Healthchecks}
use axonops_operator.Connection.{resolve_api_client, handle_connection_paused, drift_check_interval}
use axonops_operator.Metrics.{with_metrics}
use axonops_operator.Healthcheck.{
  Healthcheck, Kind, conditions_of, with_conditions, with_finalizers, healthcheck_exists,
  replace_entry, without_entry, failed_healthcheck, drifted_healthcheck, synced_healthcheck,
  is_healthcheck_synced,
}

-- What `checkDrift` answers: the reconcile returns, or goes on with the object.
pub data Drift (S : Type 0) : Type 0 where
  return : Outcome → Drift S
  continue : Healthcheck S → Drift S

-- `errors.As(err, &apiErr) && apiErr.StatusCode == 404`
unfoldable pub is_missing : Error → Bool
unfolding as_api_error
is_missing e = elim (as_api_error e) [ none ↦ false | some a ↦ nat_eq a.status_code 404 ]

module _ {S E : Type 0} (K : Kind S E) where
  abbrev pub entries_of : Healthchecks → List E
  entries_of all = or_default (K.checks all) []

module _ {W S E : Type 0} (K : Kind S E) (k : K8s) (std : Std) (env : Env W (Healthcheck S)) where
  abbrev pub get_all : Healthcheck S → Client → M W (Healthcheck S) (Result Healthchecks)
  get_all h client = get_healthchecks std env client (K.cluster_type h.spec) (K.cluster_name h.spec)

  -- `setFailedCondition`, and the answer whether or not the status could be written.
  unfoldable pub fail_with :
      Healthcheck S → String → String → Error → Outcome → M W (Healthcheck S) Outcome
  unfolding failed_healthcheck update_status safe_condition_msg
  fail_with h reason prefix e outcome = do
    _ ← update_status env (failed_healthcheck k h reason (safe_condition_msg prefix e))
    pure outcome

  unfoldable pub drift_answer : Healthcheck S → Result Healthchecks → M W (Healthcheck S) (Drift S)
  unfolding fail_with healthcheck_exists drifted_healthcheck update_status
  drift_answer h (err e) = do
    o ← fail_with h "DriftCheckFailed" "Failed to check for drift" e (requeue drift_check_interval)
    pure (return o)
  drift_answer h (ok all) =
      if healthcheck_exists K.id_of (entries_of K all) h.status.synced_healthcheck_id
      then pure (return (requeue drift_check_interval))
      else do
        u ← update_status env (drifted_healthcheck k K.drift_message h)
        pure (elim u [ err e ↦ return (fail (some e)) | ok h' ↦ continue h' ])

  unfoldable pub check_drift : Healthcheck S → Client → M W (Healthcheck S) (Drift S)
  unfolding drift_answer
  check_drift h client = do all ← get_all h client; drift_answer h all

  -- Re-fetch and update the status.
  unfoldable pub finish : Key → ℕ → String → M W (Healthcheck S) Outcome
  unfolding get now update_status synced_healthcheck
  finish key synced_generation id = do
    got ← get env key
    elim got [
      | err e ↦ pure (fail (k.ignore_not_found e))
      | ok h ↦ do
        time ← now env
        u ← update_status env (synced_healthcheck k id synced_generation time h)
        pure (elim u [ err e ↦ fail (some e) | ok _ ↦ done ])
    ]

  -- The bulk update, with the list of the kind replaced. `id` is that of the resource's entry.
  unfoldable pub put_all :
      Key → Healthcheck S → Client → Healthchecks → List E → String → M W (Healthcheck S) Outcome
  unfolding finish fail_with retryable
  put_all key h client all es id = do
    r ←
        update_healthchecks std env client (K.cluster_type h.spec) (K.cluster_name h.spec)
          (K.with_checks (some es) all)
    elim r [
      | err e ↦
          fail_with h "APIError" "Failed to update healthchecks" e
            (if retryable e then requeue 30 else done)
      | ok _ ↦ finish key h.metadata.generation id
    ]

  put_appended : Key → Healthcheck S → Client → Healthchecks → E → M W (Healthcheck S) Outcome
  unfolding put_all
  put_appended key h client all entry =
      put_all key h client all (entries_of K all ++ (entry ∷ [])) (K.id_of entry)

  -- Overwrite the entry of the resource, or append it, with a new id if it has none.
  unfoldable pub put_entry :
      Key → Healthcheck S → Client → Healthchecks → M W (Healthcheck S) Outcome
  unfolding replace_entry put_all put_appended new_uuid
  put_entry key h client all =
      let entry = K.build_healthcheck_entry h in
      elim (replace_entry K.id_of h.status.synced_healthcheck_id entry (entries_of K all)) [
        | some es ↦ put_all key h client all es (K.id_of entry)
        | none ↦
            if K.id_of entry == ""
            then (do fresh ← new_uuid env; put_appended key h client all (K.set_id fresh entry))
            else put_appended key h client all entry
      ]

  unfoldable pub apply : Key → Healthcheck S → Client → M W (Healthcheck S) Outcome
  unfolding put_entry fail_with
  apply key h client = do
    got ← get_all h client
    elim got [
      | err e ↦ fail_with h "APIError" "Failed to get healthchecks" e (requeue 30)
      | ok all ↦ put_entry key h client all
    ]

  -- What `Reconcile` does once the client is there.
  unfoldable pub sync : Key → Healthcheck S → Client → M W (Healthcheck S) Outcome
  unfolding is_healthcheck_synced check_drift apply
  sync key h client =
      if is_healthcheck_synced k h
      then (do
        d ← check_drift h client
        elim d [ return o ↦ pure o | continue h' ↦ apply key h' client ])
      else apply key h client

  resolve_failed : Healthcheck S → Error → M W (Healthcheck S) Outcome
  unfolding is_connection_paused handle_connection_paused fail_with
  resolve_failed h e =
      if is_connection_paused e
      then handle_connection_paused env k conditions_of with_conditions h
      else fail_with h "ConnectionError" "Failed to resolve connection" e (requeue 30)

  -- What `Reconcile` does with an object that is not being deleted.
  unfoldable pub reconcile_live : Key → Healthcheck S → M W (Healthcheck S) Outcome
  unfolding update resolve_failed sync
  reconcile_live key h =
      if k.contains_finalizer h.metadata.finalizers K.finalizer
      then (do
        c ← resolve_api_client std env h.metadata.namespace (K.connection_ref h.spec)
        elim c [ err e ↦ resolve_failed h e | ok client ↦ sync key h client ])
      else do
        u ← update env (with_finalizers (k.add_finalizer h.metadata.finalizers K.finalizer) h)
        pure (elim u [ err e ↦ fail (some e) | ok _ ↦ done ])

  unfoldable pub remove_finalizer : Healthcheck S → M W (Healthcheck S) Outcome
  unfolding update
  remove_finalizer h = do
    u ← update env (with_finalizers (k.remove_finalizer h.metadata.finalizers K.finalizer) h)
    pure (elim u [ err e ↦ fail (some e) | ok _ ↦ done ])

  -- The bulk update without the entry. A failure that is not retryable is let go.
  unfoldable pub put_without : Healthcheck S → Client → Healthchecks → M W (Healthcheck S) Outcome
  unfolding without_entry remove_finalizer retryable
  put_without h client all = do
    r ← update_healthchecks std env client (K.cluster_type h.spec) (K.cluster_name h.spec) (
        K.with_checks
          (some (without_entry K.id_of h.status.synced_healthcheck_id (entries_of K all))) all)
    elim r [
      | err e ↦ if retryable e then pure (requeue 30) else remove_finalizer h
      | ok _ ↦ remove_finalizer h
    ]

  unfoldable pub delete_then_release : Healthcheck S → Client → M W (Healthcheck S) Outcome
  unfolding put_without remove_finalizer is_missing
  delete_then_release h client =
      if h.status.synced_healthcheck_id == "" then remove_finalizer h else do
        got ← get_all h client
        elim got [
          | err e ↦ if is_missing e then remove_finalizer h else pure (requeue 30)
          | ok all ↦ put_without h client all
        ]

  unfoldable pub handle_deletion : Healthcheck S → M W (Healthcheck S) Outcome
  unfolding delete_then_release
  handle_deletion h =
      if k.contains_finalizer h.metadata.finalizers K.finalizer
      then (do
        c ← resolve_api_client std env h.metadata.namespace (K.connection_ref h.spec)
        elim c [ err e ↦ pure (requeue 30) | ok client ↦ delete_then_release h client ])
      else pure done

  unfoldable pub reconcile_body : Key → M W (Healthcheck S) Outcome
  unfolding get reconcile_live handle_deletion
  reconcile_body key = do
    got ← get env key
    elim got [
      | err e ↦ pure (fail (k.ignore_not_found e))
      | ok h ↦
          if is_some h.metadata.deletion_timestamp then handle_deletion h else reconcile_live key h
    ]

  unfoldable pub reconcile : Key → M W (Healthcheck S) Outcome
  unfolding reconcile_body with_metrics
  reconcile key = with_metrics k K.controller (reconcile_body key)
