-- ===== src/Repair/Steps.antt =====
-- The steps of `AxonOpsScheduledRepairReconciler`.
use axonops_operator.Prelude.{ℕ, String, List, some, is_some, ◌==◌, ◌&&◌, if◌then◌else◌}
use axonops_operator.Errors.{
  Error, Result, ok, err, retryable, is_connection_paused, safe_condition_msg,
}
use axonops_operator.K8s.{Key, K8s, Outcome, done, requeue, fail}
use axonops_operator.Http.{Std, Env, M, pure, get, update, update_status, now, ◌>>=◌}
use axonops_operator.Client.{Client}
use axonops_operator.Client.Repair.{
  ScheduledRepairEntry, get_scheduled_repairs, create_scheduled_repair, delete_scheduled_repair,
}
use axonops_operator.Connection.{resolve_api_client, handle_connection_paused, drift_check_interval}
use axonops_operator.Metrics.{with_metrics}
use axonops_operator.Repair.{
  Repair, repair_finalizer, conditions_of, with_conditions, with_finalizers, build_repair_params,
  find_repair_id_by_tag, repair_exists, failed_repair, drift_check_failed, drifted, synced_repair,
  is_synced,
}

-- What `checkDrift` answers: the reconcile returns, or goes on with the object.
pub data Drift : Type 0 where
  return : Outcome → Drift
  continue : Repair → Drift

module _ {W : Type 0} (k : K8s) (std : Std) (env : Env W Repair) where
  -- Set the Failed condition and answer, whether or not the status could be written.
  unfoldable pub fail_with : Repair → String → String → Outcome → M W Repair Outcome
  unfolding failed_repair update_status
  fail_with r reason message outcome = do
    _ ← update_status env (failed_repair k r reason message)
    pure outcome

  drift_answer : Repair → Result (List ScheduledRepairEntry) → M W Repair Drift
  unfolding repair_exists drifted drift_check_failed update_status safe_condition_msg
  drift_answer r (err e) = do
    _ ←
        update_status env
          (drift_check_failed k r (safe_condition_msg "Failed to check for drift" e))
    pure (return (requeue drift_check_interval))
  drift_answer r (ok repairs) =
      if repair_exists repairs r.status.synced_repair_id
      then pure (return (requeue drift_check_interval))
      else do
        u ← update_status env (drifted k r)
        pure (elim u [ err e ↦ return (fail (some e)) | ok r' ↦ continue r' ])

  unfoldable pub check_drift : Repair → Client → M W Repair Drift
  unfolding drift_answer
  check_drift r client = do
    repairs ← get_scheduled_repairs std env client r.spec.cluster_type r.spec.cluster_name
    drift_answer r repairs

  -- Re-fetch and update the status.
  unfoldable pub finish : Key → ℕ → String → M W Repair Outcome
  unfolding get now update_status synced_repair
  finish key synced_generation id = do
    got ← get env key
    elim got [
      | err e ↦ pure (fail (k.ignore_not_found e))
      | ok r ↦ do
        time ← now env
        u ← update_status env (synced_repair k id synced_generation time r)
        pure (elim u [ err e ↦ fail (some e) | ok _ ↦ done ])
    ]

  -- Create the repair, and find its id by its tag.
  unfoldable pub create : Key → Repair → Client → M W Repair Outcome
  unfolding build_repair_params fail_with finish find_repair_id_by_tag retryable safe_condition_msg
  create key r client = do
    made ←
        create_scheduled_repair std env client r.spec.cluster_type r.spec.cluster_name
          (build_repair_params r)
    elim made [
      | err e ↦
          fail_with r "SyncFailed" (safe_condition_msg "Failed to sync with AxonOps" e)
            (if retryable e then requeue 30 else done)
      | ok _ ↦ do
        repairs ← get_scheduled_repairs std env client r.spec.cluster_type r.spec.cluster_name
        elim repairs [
          | err e ↦ pure (requeue 10)
          | ok es ↦ finish key r.metadata.generation (find_repair_id_by_tag es r.spec.tag)
        ]
    ]

  -- Delete the old repair, if there is one, and create the new.
  unfoldable pub replace : Key → Repair → Client → M W Repair Outcome
  unfolding create retryable
  replace key r client = if r.status.synced_repair_id == "" then create key r client else do
    d ←
        delete_scheduled_repair std env client r.spec.cluster_type r.spec.cluster_name
          r.status.synced_repair_id
    elim d [
      | ok _ ↦ create key r client
      | err e ↦ if retryable e then pure (requeue 30) else create key r client
    ]

  -- What `Reconcile` does once the client is there.
  unfoldable pub sync : Key → Repair → Client → M W Repair Outcome
  unfolding is_synced check_drift replace
  sync key r client =
      if is_synced k r
      then (do
        d ← check_drift r client
        elim d [ return o ↦ pure o | continue r' ↦ replace key r' client ])
      else replace key r client

  resolve_failed : Repair → Error → M W Repair Outcome
  unfolding is_connection_paused handle_connection_paused fail_with safe_condition_msg
  resolve_failed r e =
      if is_connection_paused e
      then handle_connection_paused env k conditions_of with_conditions r
      else fail_with r "FailedToResolveConnection"
          (safe_condition_msg "Failed to resolve connection" e) (requeue 30)

  -- What `Reconcile` does with an object that has its finalizer and is not being deleted.
  unfoldable pub validate_and_sync : Key → Repair → M W Repair Outcome
  unfolding fail_with resolve_failed sync
  validate_and_sync key r =
      if r.spec.skip_paxos && r.spec.paxos_only
      then fail_with r "ValidationError" "SkipPaxos and PaxosOnly are mutually exclusive" done
      else do
        c ← resolve_api_client std env r.metadata.namespace r.spec.connection_ref
        elim c [ err e ↦ resolve_failed r e | ok client ↦ sync key r client ]

  unfoldable pub reconcile_live : Key → Repair → M W Repair Outcome
  unfolding update validate_and_sync
  reconcile_live key r =
      if k.contains_finalizer r.metadata.finalizers repair_finalizer
      then validate_and_sync key r
      else do
        u ← update env (with_finalizers (k.add_finalizer r.metadata.finalizers repair_finalizer) r)
        pure (elim u [ err e ↦ fail (some e) | ok _ ↦ done ])

  remove_finalizer : Repair → M W Repair Outcome
  unfolding update
  remove_finalizer r = do
    u ← update env (with_finalizers (k.remove_finalizer r.metadata.finalizers repair_finalizer) r)
    pure (elim u [ err e ↦ fail (some e) | ok _ ↦ done ])

  delete_then_release : Repair → Client → M W Repair Outcome
  unfolding remove_finalizer retryable
  delete_then_release r client = if r.status.synced_repair_id == "" then remove_finalizer r else do
    d ←
        delete_scheduled_repair std env client r.spec.cluster_type r.spec.cluster_name
          r.status.synced_repair_id
    elim d [
      | ok _ ↦ remove_finalizer r
      | err e ↦ if retryable e then pure (requeue 30) else remove_finalizer r
    ]

  unfoldable pub handle_deletion : Repair → M W Repair Outcome
  unfolding delete_then_release
  handle_deletion r =
      if k.contains_finalizer r.metadata.finalizers repair_finalizer
      then (do
        c ← resolve_api_client std env r.metadata.namespace r.spec.connection_ref
        elim c [ err e ↦ pure (requeue 30) | ok client ↦ delete_then_release r client ])
      else pure done

  unfoldable pub reconcile_body : Key → M W Repair Outcome
  unfolding get reconcile_live handle_deletion
  reconcile_body key = do
    got ← get env key
    elim got [
      | err e ↦ pure (fail (k.ignore_not_found e))
      | ok r ↦
          if is_some r.metadata.deletion_timestamp then handle_deletion r else reconcile_live key r
    ]

  unfoldable pub reconcile : Key → M W Repair Outcome
  unfolding reconcile_body with_metrics
  reconcile key = with_metrics k "axonopsscheduledrepair" (reconcile_body key)
