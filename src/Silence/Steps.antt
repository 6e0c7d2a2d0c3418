-- ===== src/Silence/Steps.antt =====
-- The steps of `AxonOpsSilenceWindowReconciler`.
use axonops_operator.Prelude.{ℕ, String, List, some, is_some, ◌==◌, if◌then◌else◌}
use axonops_operator.Errors.{
  Error, Result, ok, err, retryable, is_connection_paused, safe_condition_msg,
}
use axonops_operator.K8s.{Key, K8s, Outcome, done, requeue, fail}
use axonops_operator.Http.{Std, Env, M, pure, get, update, update_status, now, new_uuid, ◌>>=◌}
use axonops_operator.Client.{Client}
use axonops_operator.Client.Silence.{
  get_silence_windows, create_silence_window, delete_silence_window,
}
use axonops_operator.Connection.{resolve_api_client, handle_connection_paused, drift_check_interval}
use axonops_operator.Metrics.{with_metrics}
use axonops_operator.Silence.{
  Silence, silence_finalizer, conditions_of, with_conditions, with_finalizers, is_active,
  silence_payload, silence_exists, failed_silence, drift_check_failed, drifted, synced_silence,
  is_synced,
}

-- What `checkDrift` answers: the reconcile returns, or goes on with the object.
pub data Drift : Type 0 where
  return : Outcome → Drift
  continue : Silence → Drift

module _ {W : Type 0} (k : K8s) (std : Std) (env : Env W Silence) where
  -- Set the Failed condition and answer, whether or not the status could be written.
  unfoldable pub fail_with : Silence → String → String → Outcome → M W Silence Outcome
  unfolding failed_silence update_status
  fail_with s reason message outcome = do
    _ ← update_status env (failed_silence k s reason message)
    pure outcome

  drift_answer : Silence → Result (List String) → M W Silence Drift
  unfolding silence_exists drifted drift_check_failed update_status safe_condition_msg
  drift_answer s (err e) = do
    _ ←
        update_status env
          (drift_check_failed k s (safe_condition_msg "Failed to check for drift" e))
    pure (return (requeue drift_check_interval))
  drift_answer s (ok windows) =
      if silence_exists windows s.status.synced_silence_id
      then pure (return (requeue drift_check_interval))
      else do
        u ← update_status env (drifted k s)
        pure (elim u [ err e ↦ return (fail (some e)) | ok s' ↦ continue s' ])

  unfoldable pub check_drift : Silence → Client → M W Silence Drift
  unfolding drift_answer
  check_drift s client = do
    windows ← get_silence_windows std env client s.spec.cluster_type s.spec.cluster_name
    drift_answer s windows

  -- Re-fetch and update the status.
  unfoldable pub finish : Key → ℕ → String → M W Silence Outcome
  unfolding get now update_status synced_silence
  finish key synced_generation id = do
    got ← get env key
    elim got [
      | err e ↦ pure (fail (k.ignore_not_found e))
      | ok s ↦ do
        time ← now env
        u ← update_status env (synced_silence k id synced_generation time s)
        pure (elim u [ err e ↦ fail (some e) | ok _ ↦ done ])
    ]

  -- Create the window of an active resource, under a new id.
  unfoldable pub create : Key → Silence → Client → M W Silence Outcome
  unfolding is_active silence_payload new_uuid fail_with finish retryable safe_condition_msg
  create key s client =
      if is_active s
      then (do
        id ← new_uuid env
        made ←
            create_silence_window std env client s.spec.cluster_type s.spec.cluster_name
              (silence_payload s id)
        elim made [
          | err e ↦
              fail_with s "SyncFailed" (safe_condition_msg "Failed to sync with AxonOps" e)
                (if retryable e then requeue 30 else done)
          | ok _ ↦ finish key s.metadata.generation id
        ])
      else finish key s.metadata.generation ""

  -- Delete the old window, if there is one, and create the new.
  unfoldable pub replace : Key → Silence → Client → M W Silence Outcome
  unfolding create retryable
  replace key s client = if s.status.synced_silence_id == "" then create key s client else do
    d ←
        delete_silence_window std env client s.spec.cluster_type s.spec.cluster_name
          s.status.synced_silence_id
    elim d [
      | ok _ ↦ create key s client
      | err e ↦ if retryable e then pure (requeue 30) else create key s client
    ]

  -- What `Reconcile` does once the client is there.
  unfoldable pub sync : Key → Silence → Client → M W Silence Outcome
  unfolding is_synced check_drift replace
  sync key s client =
      if is_synced k s
      then (do
        d ← check_drift s client
        elim d [ return o ↦ pure o | continue s' ↦ replace key s' client ])
      else replace key s client

  resolve_failed : Silence → Error → M W Silence Outcome
  unfolding is_connection_paused handle_connection_paused fail_with safe_condition_msg
  resolve_failed s e =
      if is_connection_paused e
      then handle_connection_paused env k conditions_of with_conditions s
      else fail_with s "FailedToResolveConnection"
          (safe_condition_msg "Failed to resolve connection" e) (requeue 30)

  -- What `Reconcile` does with an object that is not being deleted.
  unfoldable pub reconcile_live : Key → Silence → M W Silence Outcome
  unfolding update resolve_failed sync
  reconcile_live key s =
      if k.contains_finalizer s.metadata.finalizers silence_finalizer
      then (do
        c ← resolve_api_client std env s.metadata.namespace s.spec.connection_ref
        elim c [ err e ↦ resolve_failed s e | ok client ↦ sync key s client ])
      else do
        u ← update env (with_finalizers (k.add_finalizer s.metadata.finalizers silence_finalizer) s)
        pure (elim u [ err e ↦ fail (some e) | ok _ ↦ done ])

  remove_finalizer : Silence → M W Silence Outcome
  unfolding update
  remove_finalizer s = do
    u ← update env (with_finalizers (k.remove_finalizer s.metadata.finalizers silence_finalizer) s)
    pure (elim u [ err e ↦ fail (some e) | ok _ ↦ done ])

  delete_then_release : Silence → Client → M W Silence Outcome
  unfolding remove_finalizer retryable
  delete_then_release s client = if s.status.synced_silence_id == "" then remove_finalizer s else do
    d ←
        delete_silence_window std env client s.spec.cluster_type s.spec.cluster_name
          s.status.synced_silence_id
    elim d [
      | ok _ ↦ remove_finalizer s
      | err e ↦ if retryable e then pure (requeue 30) else remove_finalizer s
    ]

  unfoldable pub handle_deletion : Silence → M W Silence Outcome
  unfolding delete_then_release
  handle_deletion s =
      if k.contains_finalizer s.metadata.finalizers silence_finalizer
      then (do
        c ← resolve_api_client std env s.metadata.namespace s.spec.connection_ref
        elim c [ err e ↦ pure (requeue 30) | ok client ↦ delete_then_release s client ])
      else pure done

  unfoldable pub reconcile_body : Key → M W Silence Outcome
  unfolding get reconcile_live handle_deletion
  reconcile_body key = do
    got ← get env key
    elim got [
      | err e ↦ pure (fail (k.ignore_not_found e))
      | ok s ↦
          if is_some s.metadata.deletion_timestamp then handle_deletion s else reconcile_live key s
    ]

  unfoldable pub reconcile : Key → M W Silence Outcome
  unfolding reconcile_body with_metrics
  reconcile key = with_metrics k "axonopssilencewindow" (reconcile_body key)
