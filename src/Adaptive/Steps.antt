-- ===== src/Adaptive/Steps.antt =====
-- The steps of `AxonOpsAdaptiveRepairReconciler`.
use axonops_operator.Prelude.{ℕ, String, some, is_some, if◌then◌else◌}
use axonops_operator.Errors.{
  Error, Result, ok, err, retryable, is_connection_paused, safe_condition_msg,
}
use axonops_operator.K8s.{Key, K8s, Outcome, done, requeue, fail}
use axonops_operator.Http.{Std, Env, M, pure, get, update, update_status, now, ◌>>=◌}
use axonops_operator.Client.{Client}
use axonops_operator.Client.Adaptive.{
  AdaptiveRepairSettings, get_adaptive_repair, update_adaptive_repair,
}
use axonops_operator.Connection.{resolve_api_client, handle_connection_paused, drift_check_interval}
use axonops_operator.Metrics.{with_metrics}
use axonops_operator.Adaptive.{
  AdaptiveRepair, adaptive_finalizer, conditions_of, with_conditions, with_finalizers,
  build_adaptive_repair_settings, settings_equal, failed_adaptive, drifted_adaptive,
  synced_adaptive, is_adaptive_synced,
}

-- What `checkDrift` answers: the reconcile returns, or goes on with the object.
pub data Drift : Type 0 where
  return : Outcome → Drift
  continue : AdaptiveRepair → Drift

module _ {W : Type 0} (k : K8s) (std : Std) (env : Env W AdaptiveRepair) where
  -- `setFailedCondition`, and the answer whether or not the status could be written.
  unfoldable pub fail_with : AdaptiveRepair → String → String → Outcome → M W AdaptiveRepair Outcome
  unfolding failed_adaptive update_status
  fail_with a reason message outcome = do
    _ ← update_status env (failed_adaptive k a reason message)
    pure outcome

  unfoldable pub drift_answer :
      AdaptiveRepair → Result AdaptiveRepairSettings → M W AdaptiveRepair Drift
  unfolding build_adaptive_repair_settings settings_equal drifted_adaptive failed_adaptive
      update_status safe_condition_msg
  drift_answer a (err e) = do
    _ ←
        update_status env (
          failed_adaptive k a "DriftCheckFailed" (safe_condition_msg "Failed to check for drift" e))
    pure (return (requeue drift_check_interval))
  drift_answer a (ok current) =
      if settings_equal (build_adaptive_repair_settings a) current
      then pure (return (requeue drift_check_interval))
      else do
        u ← update_status env (drifted_adaptive k a)
        pure (elim u [ err e ↦ return (fail (some e)) | ok a' ↦ continue a' ])

  unfoldable pub check_drift : AdaptiveRepair → Client → M W AdaptiveRepair Drift
  unfolding drift_answer
  check_drift a client = do
    current ← get_adaptive_repair std env client a.spec.cluster_type a.spec.cluster_name
    drift_answer a current

  -- `updateReadyStatus`, with the error as the outcome.
  unfoldable pub update_ready_status : Key → ℕ → M W AdaptiveRepair Outcome
  unfolding get now update_status synced_adaptive
  update_ready_status key synced_generation = do
    got ← get env key
    elim got [
      | err e ↦ pure (fail (k.ignore_not_found e))
      | ok a ↦ do
        time ← now env
        u ← update_status env (synced_adaptive k synced_generation time a)
        pure (elim u [ err e ↦ fail (some e) | ok _ ↦ done ])
    ]

  -- What follows the read of the current settings.
  unfoldable pub settle :
      Key → AdaptiveRepair → Client → AdaptiveRepairSettings → M W AdaptiveRepair Outcome
  unfolding build_adaptive_repair_settings settings_equal update_ready_status fail_with retryable
      safe_condition_msg
  settle key a client current =
      if settings_equal (build_adaptive_repair_settings a) current
      then update_ready_status key a.metadata.generation
      else do
        r ←
            update_adaptive_repair std env client a.spec.cluster_type a.spec.cluster_name
              (build_adaptive_repair_settings a)
        elim r [
          | err e ↦
              fail_with a "APIError"
                (safe_condition_msg "Failed to update adaptive repair settings" e)
                (if retryable e then requeue 30 else done)
          | ok _ ↦ update_ready_status key a.metadata.generation
        ]

  unfoldable pub apply : Key → AdaptiveRepair → Client → M W AdaptiveRepair Outcome
  unfolding settle fail_with safe_condition_msg
  apply key a client = do
    current ← get_adaptive_repair std env client a.spec.cluster_type a.spec.cluster_name
    elim current [
      | err e ↦
          fail_with a "APIError" (safe_condition_msg "Failed to get adaptive repair settings" e)
            (requeue 30)
      | ok settings ↦ settle key a client settings
    ]

  -- What `Reconcile` does once the client is there.
  unfoldable pub sync : Key → AdaptiveRepair → Client → M W AdaptiveRepair Outcome
  unfolding is_adaptive_synced check_drift apply
  sync key a client =
      if is_adaptive_synced k a
      then (do
        d ← check_drift a client
        elim d [ return o ↦ pure o | continue a' ↦ apply key a' client ])
      else apply key a client

  unfoldable pub resolve_failed : AdaptiveRepair → Error → M W AdaptiveRepair Outcome
  unfolding is_connection_paused handle_connection_paused fail_with safe_condition_msg
  resolve_failed a e =
      if is_connection_paused e
      then handle_connection_paused env k conditions_of with_conditions a
      else fail_with a "ConnectionError" (safe_condition_msg "Failed to resolve connection" e)
          (requeue 30)

  -- What `Reconcile` does with an object that is not being deleted.
  unfoldable pub reconcile_live : Key → AdaptiveRepair → M W AdaptiveRepair Outcome
  unfolding update resolve_failed sync
  reconcile_live key a =
      if k.contains_finalizer a.metadata.finalizers adaptive_finalizer
      then (do
        c ← resolve_api_client std env a.metadata.namespace a.spec.connection_ref
        elim c [ err e ↦ resolve_failed a e | ok client ↦ sync key a client ])
      else do
        u ←
            update env
              (with_finalizers (k.add_finalizer a.metadata.finalizers adaptive_finalizer) a)
        pure (elim u [ err e ↦ fail (some e) | ok _ ↦ done ])

  -- The settings belong to the cluster: nothing is deleted but the finalizer.
  unfoldable pub handle_deletion : AdaptiveRepair → M W AdaptiveRepair Outcome
  unfolding update
  handle_deletion a =
      if k.contains_finalizer a.metadata.finalizers adaptive_finalizer
      then (do
        u ←
            update env
              (with_finalizers (k.remove_finalizer a.metadata.finalizers adaptive_finalizer) a)
        pure (elim u [ err e ↦ fail (some e) | ok _ ↦ done ]))
      else pure done

  unfoldable pub reconcile_body : Key → M W AdaptiveRepair Outcome
  unfolding get reconcile_live handle_deletion
  reconcile_body key = do
    got ← get env key
    elim got [
      | err e ↦ pure (fail (k.ignore_not_found e))
      | ok a ↦
          if is_some a.metadata.deletion_timestamp then handle_deletion a else reconcile_live key a
    ]

  unfoldable pub reconcile : Key → M W AdaptiveRepair Outcome
  unfolding reconcile_body with_metrics
  reconcile key = with_metrics k "axonopsadaptiverepair" (reconcile_body key)
