-- ===== src/Collector/Steps.antt =====
-- The steps of `AxonOpsLogCollectorReconciler`.
use axonops_operator.Prelude.{ℕ, String, List, some, is_some, length, nat_eq, if◌then◌else◌}
use axonops_operator.Errors.{Error, Result, ok, err, retryable, safe_condition_msg}
use axonops_operator.K8s.{Key, K8s, Outcome, done, requeue, fail}
use axonops_operator.Http.{Std, Env, M, pure, get, update, update_status, now, new_uuid, ◌>>=◌}
use axonops_operator.Client.{Client}
use axonops_operator.Client.Collector.{LogCollector, get_log_collectors, put_log_collectors}
use axonops_operator.Connection.{resolve_api_client, drift_check_interval}
use axonops_operator.Metrics.{with_metrics}
use axonops_operator.Collector.{
  Collector, collector_finalizer, with_finalizers, merge, filtered, appended, collector_exists,
  failed_collector, drift_check_failed, drifted, synced_collector, is_synced,
}

-- What `checkDrift` answers: the reconcile returns, or goes on with the object.
pub data Drift : Type 0 where
  return : Outcome → Drift
  continue : Collector → Drift

module _ {W : Type 0} (k : K8s) (std : Std) (env : Env W Collector) where
  -- Set the Failed condition and retry after 30 seconds, whether or not the status could be
  -- written.
  unfoldable pub fail_with : Collector → String → String → Error → M W Collector Outcome
  unfolding failed_collector update_status safe_condition_msg
  fail_with c reason prefix e = do
    _ ← update_status env (failed_collector k c reason (safe_condition_msg prefix e))
    pure (requeue 30)

  drift_answer : Collector → Result (List LogCollector) → M W Collector Drift
  unfolding collector_exists drifted drift_check_failed update_status safe_condition_msg
  drift_answer c (err e) = do
    _ ←
        update_status env
          (drift_check_failed k c (safe_condition_msg "Failed to check for drift" e))
    pure (return (requeue drift_check_interval))
  drift_answer c (ok ls) =
      if collector_exists ls c.status.synced_uuid
      then pure (return (requeue drift_check_interval))
      else do
        u ← update_status env (drifted k c)
        pure (elim u [ err e ↦ return (fail (some e)) | ok c' ↦ continue c' ])

  unfoldable pub check_drift : Collector → Client → M W Collector Drift
  unfolding drift_answer
  check_drift c client = do
    ls ← get_log_collectors std env client c.spec.cluster_type c.spec.cluster_name
    drift_answer c ls

  -- Re-fetch and update the status.
  unfoldable pub finish : Key → ℕ → String → M W Collector Outcome
  unfolding get now update_status synced_collector
  finish key synced_generation id = do
    got ← get env key
    elim got [
      | err e ↦ pure (fail (k.ignore_not_found e))
      | ok c ↦ do
        time ← now env
        u ← update_status env (synced_collector k id synced_generation time c)
        pure (elim u [ err e ↦ fail (some e) | ok _ ↦ done ])
    ]

  -- Write the list back with the entry of the resource in it.
  unfoldable pub put_merged : Key → Collector → Client → List LogCollector → M W Collector Outcome
  unfolding new_uuid fail_with finish
  put_merged key c client existing = do
    fresh ← new_uuid env
    let (collectors, id) = merge c fresh existing
    r ← put_log_collectors std env client c.spec.cluster_type c.spec.cluster_name (some collectors)
    elim r [
      | err e ↦ fail_with c "SyncFailed" "Failed to sync log collectors" e
      | ok _ ↦ finish key c.metadata.generation id
    ]

  unfoldable pub write : Key → Collector → Client → M W Collector Outcome
  unfolding fail_with put_merged
  write key c client = do
    existing ← get_log_collectors std env client c.spec.cluster_type c.spec.cluster_name
    elim existing [
      | err e ↦ fail_with c "SyncFailed" "Failed to get log collectors" e
      | ok ls ↦ put_merged key c client ls
    ]

  -- What `Reconcile` does once the client is there.
  unfoldable pub sync : Key → Collector → Client → M W Collector Outcome
  unfolding is_synced check_drift write
  sync key c client =
      if is_synced k c
      then (do
        d ← check_drift c client
        elim d [ return o ↦ pure o | continue c' ↦ write key c' client ])
      else write key c client

  -- What `Reconcile` does with an object that is not being deleted.
  unfoldable pub reconcile_live : Key → Collector → M W Collector Outcome
  unfolding update fail_with sync
  reconcile_live key c =
      if k.contains_finalizer c.metadata.finalizers collector_finalizer
      then (do
        r ← resolve_api_client std env c.metadata.namespace c.spec.connection_ref
        elim r [
          | err e ↦ fail_with c "FailedToResolveConnection" "Failed to resolve connection" e
          | ok client ↦ sync key c client
        ])
      else do
        u ←
            update env
              (with_finalizers (k.add_finalizer c.metadata.finalizers collector_finalizer) c)
        pure (elim u [ err e ↦ fail (some e) | ok _ ↦ done ])

  remove_finalizer : Collector → M W Collector Outcome
  unfolding update
  remove_finalizer c = do
    u ←
        update env
          (with_finalizers (k.remove_finalizer c.metadata.finalizers collector_finalizer) c)
    pure (elim u [ err e ↦ fail (some e) | ok _ ↦ done ])

  -- Write the list back without the collectors of the file, if it has any.
  unfoldable pub put_filtered : Collector → Client → List LogCollector → M W Collector Outcome
  unfolding filtered remove_finalizer retryable
  put_filtered c client existing =
      let kept = filtered c.spec.filename existing in
      if nat_eq (length kept) (length existing) then remove_finalizer c else do
        r ←
            put_log_collectors std env client c.spec.cluster_type c.spec.cluster_name
              (appended kept)
        elim r [
          | ok _ ↦ remove_finalizer c
          | err e ↦ if retryable e then pure (requeue 30) else remove_finalizer c
        ]

  delete_then_release : Collector → Client → M W Collector Outcome
  unfolding put_filtered remove_finalizer retryable
  delete_then_release c client = do
    existing ← get_log_collectors std env client c.spec.cluster_type c.spec.cluster_name
    elim existing [
      | err e ↦ if retryable e then pure (requeue 30) else remove_finalizer c
      | ok ls ↦ put_filtered c client ls
    ]

  unfoldable pub handle_deletion : Collector → M W Collector Outcome
  unfolding delete_then_release
  handle_deletion c =
      if k.contains_finalizer c.metadata.finalizers collector_finalizer
      then (do
        r ← resolve_api_client std env c.metadata.namespace c.spec.connection_ref
        elim r [ err e ↦ pure (requeue 30) | ok client ↦ delete_then_release c client ])
      else pure done

  unfoldable pub reconcile_body : Key → M W Collector Outcome
  unfolding get reconcile_live handle_deletion
  reconcile_body key = do
    got ← get env key
    elim got [
      | err e ↦ pure (fail (k.ignore_not_found e))
      | ok c ↦
          if is_some c.metadata.deletion_timestamp then handle_deletion c else reconcile_live key c
    ]

  unfoldable pub reconcile : Key → M W Collector Outcome
  unfolding reconcile_body with_metrics
  reconcile key = with_metrics k "axonopslogcollector" (reconcile_body key)
