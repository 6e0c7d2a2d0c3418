-- ===== src/Kafka/Connector/Steps.antt =====
-- The steps of `AxonOpsKafkaConnectorReconciler`.
use axonops_operator.Prelude.{ℕ, String, some, is_some, if◌then◌else◌}
use axonops_operator.Errors.{Error, ok, err, retryable, is_connection_paused, safe_condition_msg}
use axonops_operator.K8s.{Key, K8s, Outcome, done, requeue, fail}
use axonops_operator.Http.{Std, Env, M, pure, get, update, update_status, now, ◌>>=◌}
use axonops_operator.Client.{Client}
use axonops_operator.Client.Kafka.{
  create_kafka_connector, update_kafka_connector_config, delete_kafka_connector,
}
use axonops_operator.Connection.{resolve_api_client, handle_connection_paused}
use axonops_operator.Metrics.{with_metrics}
use axonops_operator.Kafka.Connector.{
  Connector, connector_finalizer, conditions_of, with_conditions, with_finalizers, create_request,
  failed_connector, synced_connector, is_up_to_date,
}

module _ {W : Type 0} (k : K8s) (std : Std) (env : Env W Connector) where
  unfoldable pub set_failed_condition : Connector → String → String → M W Connector (Unit {0})
  unfolding failed_connector update_status
  set_failed_condition c reason message = do
    _ ← update_status env (failed_connector k c reason message)
    pure tt

  -- A failed call of the API: the condition, and a retry for server errors only.
  unfoldable pub api_failed : Connector → String → String → Error → M W Connector Outcome
  unfolding set_failed_condition safe_condition_msg retryable
  api_failed c reason prefix e = do
    _ ← set_failed_condition c reason (safe_condition_msg prefix e)
    pure (if retryable e then requeue 30 else done)

  -- Re-fetch and update the status, with the connector's type.
  unfoldable pub finish : Key → ℕ → String → M W Connector Outcome
  unfolding get now update_status synced_connector
  finish key synced_generation type = do
    r ← get env key
    elim r [
      | err e ↦ pure (fail (k.ignore_not_found e))
      | ok c ↦ do
        time ← now env
        u ← update_status env (synced_connector k synced_generation type time c)
        pure (elim u [ err e ↦ fail (some e) | ok _ ↦ done ])
    ]

  unfoldable pub create_connector : Key → Connector → Client → M W Connector Outcome
  unfolding create_request api_failed finish
  create_connector key c client = do
    r ←
        create_kafka_connector std env client c.spec.cluster_name c.spec.connect_cluster_name
          (create_request c)
    elim r [
      | err e ↦ api_failed c "CreateFailed" "Failed to create connector" e
      | ok resp ↦ finish key c.metadata.generation resp.type
    ]

  unfoldable pub update_connector : Key → Connector → Client → M W Connector Outcome
  unfolding api_failed finish
  update_connector key c client = do
    r ←
        update_kafka_connector_config std env client c.spec.cluster_name c.spec.connect_cluster_name
          c.spec.name c.spec.config
    elim r [
      | err e ↦ api_failed c "UpdateFailed" "Failed to update connector config" e
      | ok _ ↦ finish key c.metadata.generation c.status.connector_type
    ]

  -- What `Reconcile` does once the client is there.
  unfoldable pub sync : Key → Connector → Client → M W Connector Outcome
  unfolding is_up_to_date create_connector update_connector
  sync key c client =
      if is_up_to_date k c
      then pure done
      else if c.status.synced
      then update_connector key c client
      else create_connector key c client

  resolve_failed : Connector → Error → M W Connector Outcome
  unfolding is_connection_paused handle_connection_paused set_failed_condition safe_condition_msg
  resolve_failed c e =
      if is_connection_paused e
      then handle_connection_paused env k conditions_of with_conditions c
      else do
        _ ←
            set_failed_condition c "FailedToResolveConnection"
              (safe_condition_msg "Failed to resolve connection" e)
        pure (requeue 30)

  -- What `Reconcile` does with an object that is not being deleted.
  unfoldable pub reconcile_live : Key → Connector → M W Connector Outcome
  unfolding update resolve_failed sync
  reconcile_live key c =
      if k.contains_finalizer c.metadata.finalizers connector_finalizer
      then (do
        r ← resolve_api_client std env c.metadata.namespace c.spec.connection_ref
        elim r [ err e ↦ resolve_failed c e | ok client ↦ sync key c client ])
      else do
        r ←
            update env
              (with_finalizers (k.add_finalizer c.metadata.finalizers connector_finalizer) c)
        pure (elim r [ err e ↦ fail (some e) | ok _ ↦ done ])

  remove_finalizer : Connector → M W Connector Outcome
  unfolding update
  remove_finalizer c = do
    r ←
        update env
          (with_finalizers (k.remove_finalizer c.metadata.finalizers connector_finalizer) c)
    pure (elim r [ err e ↦ fail (some e) | ok _ ↦ done ])

  delete_then_release : Connector → Client → M W Connector Outcome
  unfolding remove_finalizer retryable
  delete_then_release c client =
      if c.status.synced
      then (do
        d ←
            delete_kafka_connector std env client c.spec.cluster_name c.spec.connect_cluster_name
              c.spec.name
        elim d [
          | ok _ ↦ remove_finalizer c
          | err e ↦ if retryable e then pure (requeue 30) else remove_finalizer c
        ])
      else remove_finalizer c

  unfoldable pub handle_deletion : Connector → M W Connector Outcome
  unfolding delete_then_release
  handle_deletion c =
      if k.contains_finalizer c.metadata.finalizers connector_finalizer
      then (do
        r ← resolve_api_client std env c.metadata.namespace c.spec.connection_ref
        elim r [ err e ↦ pure (requeue 30) | ok client ↦ delete_then_release c client ])
      else pure done

  unfoldable pub reconcile_body : Key → M W Connector Outcome
  unfolding get reconcile_live handle_deletion
  reconcile_body key = do
    r ← get env key
    elim r [
      | err e ↦ pure (fail (k.ignore_not_found e))
      | ok c ↦
          if is_some c.metadata.deletion_timestamp then handle_deletion c else reconcile_live key c
    ]

  unfoldable pub reconcile : Key → M W Connector Outcome
  unfolding reconcile_body with_metrics
  reconcile key = with_metrics k "axonopskafkaconnector" (reconcile_body key)
