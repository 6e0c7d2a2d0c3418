-- ===== src/Backup/Steps.antt =====
-- The steps of `AxonOpsBackupReconciler`.
use axonops_operator.Prelude.{ℕ, String, List, none, some, is_some, ◌==◌, if◌then◌else◌}
use axonops_operator.Errors.{
  Error, Result, ok, err, wrap, retryable, is_connection_paused, safe_condition_msg,
}
use axonops_operator.K8s.{Key, K8s, Outcome, done, requeue, fail}
use axonops_operator.Http.{Std, Env, M, pure, get, update, update_status, now, new_uuid, ◌>>=◌}
use axonops_operator.Client.{Client}
use axonops_operator.Client.Backup.{
  BackupPayload, get_scheduled_snapshots, create_scheduled_snapshot, delete_scheduled_snapshot,
}
use axonops_operator.Connection.{resolve_api_client, handle_connection_paused, drift_check_interval}
use axonops_operator.Metrics.{with_metrics}
use axonops_operator.Backup.{
  Backup, backup_finalizer, conditions_of, with_conditions, with_finalizers, is_ambiguous,
  local_payload, with_remote, snapshot_exists, failed_backup, backup_drift_check_failed,
  drifted_backup, synced_backup, is_backup_synced,
}
use axonops_operator.Backup.Remote.{build_remote_config}

-- What `checkDrift` answers: the reconcile returns, or goes on with the object.
pub data Drift : Type 0 where
  return : Outcome → Drift
  continue : Backup → Drift

module _ {W : Type 0} (std : Std) (env : Env W Backup) where
  -- The id that the snapshot has, or a new one.
  unfoldable pub backup_id : Backup → M W Backup String
  unfolding new_uuid
  backup_id b =
      if b.status.synced_backup_id == "" then new_uuid env else pure b.status.synced_backup_id

  unfoldable pub build_backup_payload : Backup → M W Backup (Result BackupPayload)
  unfolding backup_id local_payload with_remote build_remote_config
  build_backup_payload b = do
    id ← backup_id b
    elim b.spec.remote [
      | none ↦ pure (ok (record (local_payload b) { id = id }))
      | some r ↦ do
        config ← build_remote_config std env b.metadata.namespace r
        pure (elim config [
          | err e ↦ err (wrap "failed to build remote config" e)
          | ok text ↦ ok (with_remote r text (record (local_payload b) { id = id }))
        ])
    ]

module _ {W : Type 0} (k : K8s) (std : Std) (env : Env W Backup) where
  -- Set the Failed condition and answer, whether or not the status could be written.
  unfoldable pub fail_with : Backup → String → String → Outcome → M W Backup Outcome
  unfolding failed_backup update_status
  fail_with b reason message outcome = do
    _ ← update_status env (failed_backup k b reason message)
    pure outcome

  unfoldable pub drift_answer : Backup → Result (List String) → M W Backup Drift
  unfolding snapshot_exists drifted_backup backup_drift_check_failed update_status
      safe_condition_msg
  drift_answer b (err e) = do
    _ ←
        update_status env
          (backup_drift_check_failed k b (safe_condition_msg "Failed to check for drift" e))
    pure (return (requeue drift_check_interval))
  drift_answer b (ok snapshots) =
      if snapshot_exists snapshots b.status.synced_backup_id
      then pure (return (requeue drift_check_interval))
      else do
        u ← update_status env (drifted_backup k b)
        pure (elim u [ err e ↦ return (fail (some e)) | ok b' ↦ continue b' ])

  unfoldable pub check_drift : Backup → Client → M W Backup Drift
  unfolding drift_answer
  check_drift b client = do
    snapshots ← get_scheduled_snapshots std env client b.spec.cluster_type b.spec.cluster_name
    drift_answer b snapshots

  -- Re-fetch and update the status.
  unfoldable pub finish : Key → ℕ → String → M W Backup Outcome
  unfolding get now update_status synced_backup
  finish key synced_generation id = do
    got ← get env key
    elim got [
      | err e ↦ pure (fail (k.ignore_not_found e))
      | ok b ↦ do
        time ← now env
        u ← update_status env (synced_backup k id synced_generation time b)
        pure (elim u [ err e ↦ fail (some e) | ok _ ↦ done ])
    ]

  unfoldable pub create : Key → Backup → Client → BackupPayload → M W Backup Outcome
  unfolding fail_with finish retryable safe_condition_msg
  create key b client payload = do
    made ← create_scheduled_snapshot std env client b.spec.cluster_type b.spec.cluster_name payload
    elim made [
      | err e ↦
          fail_with b "SyncFailed" (safe_condition_msg "Failed to sync with AxonOps" e)
            (if retryable e then requeue 30 else done)
      | ok _ ↦ finish key b.metadata.generation payload.id
    ]

  -- Delete the old snapshot, if there is one, and create the new.
  unfoldable pub replace : Key → Backup → Client → BackupPayload → M W Backup Outcome
  unfolding create retryable
  replace key b client payload =
      if b.status.synced_backup_id == "" then create key b client payload else do
        d ←
            delete_scheduled_snapshot std env client b.spec.cluster_type b.spec.cluster_name
              b.status.synced_backup_id
        elim d [
          | ok _ ↦ create key b client payload
          | err e ↦ if retryable e then pure (requeue 30) else create key b client payload
        ]

  unfoldable pub build_and_replace : Key → Backup → Client → M W Backup Outcome
  unfolding build_backup_payload fail_with safe_condition_msg replace
  build_and_replace key b client = do
    built ← build_backup_payload std env b
    elim built [
      | err e ↦
          fail_with b "PayloadBuildError" (safe_condition_msg "Failed to build backup payload" e)
            (requeue 30)
      | ok payload ↦ replace key b client payload
    ]

  -- What `Reconcile` does once the client is there.
  unfoldable pub sync : Key → Backup → Client → M W Backup Outcome
  unfolding is_backup_synced check_drift build_and_replace
  sync key b client =
      if is_backup_synced k b
      then (do
        d ← check_drift b client
        elim d [ return o ↦ pure o | continue b' ↦ build_and_replace key b' client ])
      else build_and_replace key b client

  unfoldable pub resolve_failed : Backup → Error → M W Backup Outcome
  unfolding is_connection_paused handle_connection_paused fail_with safe_condition_msg
  resolve_failed b e =
      if is_connection_paused e
      then handle_connection_paused env k conditions_of with_conditions b
      else fail_with b "FailedToResolveConnection"
          (safe_condition_msg "Failed to resolve connection" e) (requeue 30)

  -- The validation, and what follows it.
  unfoldable pub check_and_sync : Key → Backup → M W Backup Outcome
  unfolding is_ambiguous fail_with resolve_failed sync
  check_and_sync key b =
      if is_ambiguous b
      then fail_with b "ValidationError"
          "Tables and Keyspaces are mutually exclusive — specify one or neither" done
      else do
        c ← resolve_api_client std env b.metadata.namespace b.spec.connection_ref
        elim c [ err e ↦ resolve_failed b e | ok client ↦ sync key b client ]

  -- What `Reconcile` does with an object that is not being deleted.
  unfoldable pub reconcile_live : Key → Backup → M W Backup Outcome
  unfolding update check_and_sync
  reconcile_live key b =
      if k.contains_finalizer b.metadata.finalizers backup_finalizer
      then check_and_sync key b
      else do
        u ← update env (with_finalizers (k.add_finalizer b.metadata.finalizers backup_finalizer) b)
        pure (elim u [ err e ↦ fail (some e) | ok _ ↦ done ])

  unfoldable pub remove_finalizer : Backup → M W Backup Outcome
  unfolding update
  remove_finalizer b = do
    u ← update env (with_finalizers (k.remove_finalizer b.metadata.finalizers backup_finalizer) b)
    pure (elim u [ err e ↦ fail (some e) | ok _ ↦ done ])

  unfoldable pub delete_then_release : Backup → Client → M W Backup Outcome
  unfolding remove_finalizer retryable
  delete_then_release b client = if b.status.synced_backup_id == "" then remove_finalizer b else do
    d ←
        delete_scheduled_snapshot std env client b.spec.cluster_type b.spec.cluster_name
          b.status.synced_backup_id
    elim d [
      | ok _ ↦ remove_finalizer b
      | err e ↦ if retryable e then pure (requeue 30) else remove_finalizer b
    ]

  unfoldable pub handle_deletion : Backup → M W Backup Outcome
  unfolding delete_then_release
  handle_deletion b =
      if k.contains_finalizer b.metadata.finalizers backup_finalizer
      then (do
        c ← resolve_api_client std env b.metadata.namespace b.spec.connection_ref
        elim c [ err e ↦ pure (requeue 30) | ok client ↦ delete_then_release b client ])
      else pure done

  unfoldable pub reconcile_body : Key → M W Backup Outcome
  unfolding get reconcile_live handle_deletion
  reconcile_body key = do
    got ← get env key
    elim got [
      | err e ↦ pure (fail (k.ignore_not_found e))
      | ok b ↦
          if is_some b.metadata.deletion_timestamp then handle_deletion b else reconcile_live key b
    ]

  unfoldable pub reconcile : Key → M W Backup Outcome
  unfolding reconcile_body with_metrics
  reconcile key = with_metrics k "axonopsbackup" (reconcile_body key)
