-- ===== src/Kafka/Acl/Steps.antt =====
-- The steps of `AxonOpsKafkaACLReconciler`.
use axonops_operator.Prelude.{ℕ, String, some, is_some, if◌then◌else◌}
use axonops_operator.Errors.{Error, ok, err, retryable, is_connection_paused, safe_condition_msg}
use axonops_operator.K8s.{Key, K8s, Outcome, done, requeue, fail}
use axonops_operator.Http.{Std, Env, M, pure, get, update, update_status, now, ◌>>=◌}
use axonops_operator.Client.{Client}
use axonops_operator.Client.Kafka.{create_kafka_acl, delete_kafka_acl}
use axonops_operator.Connection.{resolve_api_client, handle_connection_paused}
use axonops_operator.Metrics.{with_metrics}
use axonops_operator.Kafka.Acl.{
  Acl, acl_finalizer, conditions_of, with_conditions, with_finalizers, build_acl_payload,
  failed_acl, synced_acl, is_up_to_date,
}

module _ {W : Type 0} (k : K8s) (std : Std) (env : Env W Acl) where
  unfoldable pub set_failed_condition : Acl → String → String → M W Acl (Unit {0})
  unfolding failed_acl update_status
  set_failed_condition a reason message = do
    _ ← update_status env (failed_acl k a reason message)
    pure tt

  -- Re-fetch and update the status.
  unfoldable pub finish : Key → ℕ → M W Acl Outcome
  unfolding get now update_status synced_acl
  finish key synced_generation = do
    r ← get env key
    elim r [
      | err e ↦ pure (fail (k.ignore_not_found e))
      | ok a ↦ do
        time ← now env
        u ← update_status env (synced_acl k synced_generation time a)
        pure (elim u [ err e ↦ fail (some e) | ok _ ↦ done ])
    ]

  -- What `Reconcile` does once the client is there.
  unfoldable pub sync : Key → Acl → Client → M W Acl Outcome
  unfolding is_up_to_date finish build_acl_payload set_failed_condition safe_condition_msg retryable
  sync key a client = if is_up_to_date k a then pure done else do
    r ← create_kafka_acl std env client a.spec.cluster_name (build_acl_payload a)
    elim r [
      | err e ↦ do
        _ ← set_failed_condition a "CreateFailed" (safe_condition_msg "Failed to create ACL" e)
        pure (if retryable e then requeue 30 else done)
      | ok _ ↦ finish key a.metadata.generation
    ]

  resolve_failed : Acl → Error → M W Acl Outcome
  unfolding is_connection_paused handle_connection_paused set_failed_condition safe_condition_msg
  resolve_failed a e =
      if is_connection_paused e
      then handle_connection_paused env k conditions_of with_conditions a
      else do
        _ ←
            set_failed_condition a "FailedToResolveConnection"
              (safe_condition_msg "Failed to resolve connection" e)
        pure (requeue 30)

  -- What `Reconcile` does with an object that is not being deleted.
  unfoldable pub reconcile_live : Key → Acl → M W Acl Outcome
  unfolding update resolve_failed sync
  reconcile_live key a =
      if k.contains_finalizer a.metadata.finalizers acl_finalizer
      then (do
        r ← resolve_api_client std env a.metadata.namespace a.spec.connection_ref
        elim r [ err e ↦ resolve_failed a e | ok client ↦ sync key a client ])
      else do
        r ← update env (with_finalizers (k.add_finalizer a.metadata.finalizers acl_finalizer) a)
        pure (elim r [ err e ↦ fail (some e) | ok _ ↦ done ])

  remove_finalizer : Acl → M W Acl Outcome
  unfolding update
  remove_finalizer a = do
    r ← update env (with_finalizers (k.remove_finalizer a.metadata.finalizers acl_finalizer) a)
    pure (elim r [ err e ↦ fail (some e) | ok _ ↦ done ])

  delete_then_release : Acl → Client → M W Acl Outcome
  unfolding remove_finalizer retryable build_acl_payload
  delete_then_release a client =
      if a.status.synced
      then (do
        d ← delete_kafka_acl std env client a.spec.cluster_name (build_acl_payload a)
        elim d [
          | ok _ ↦ remove_finalizer a
          | err e ↦ if retryable e then pure (requeue 30) else remove_finalizer a
        ])
      else remove_finalizer a

  unfoldable pub handle_deletion : Acl → M W Acl Outcome
  unfolding delete_then_release
  handle_deletion a =
      if k.contains_finalizer a.metadata.finalizers acl_finalizer
      then (do
        r ← resolve_api_client std env a.metadata.namespace a.spec.connection_ref
        elim r [ err e ↦ pure (requeue 30) | ok client ↦ delete_then_release a client ])
      else pure done

  unfoldable pub reconcile_body : Key → M W Acl Outcome
  unfolding get reconcile_live handle_deletion
  reconcile_body key = do
    r ← get env key
    elim r [
      | err e ↦ pure (fail (k.ignore_not_found e))
      | ok a ↦
          if is_some a.metadata.deletion_timestamp then handle_deletion a else reconcile_live key a
    ]

  unfoldable pub reconcile : Key → M W Acl Outcome
  unfolding reconcile_body with_metrics
  reconcile key = with_metrics k "axonopskafkaacl" (reconcile_body key)
