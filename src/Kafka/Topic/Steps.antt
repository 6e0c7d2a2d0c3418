-- ===== src/Kafka/Topic/Steps.antt =====
-- The steps of `AxonOpsKafkaTopicReconciler`.
use axonops_operator.Prelude.{String, some, List, [], ◌∷◌, is_some, if◌then◌else◌}
use axonops_operator.Errors.{Error, ok, err, retryable, is_connection_paused, safe_condition_msg}
use axonops_operator.K8s.{Key, K8s, Outcome, done, requeue, fail}
use axonops_operator.Http.{Std, Env, M, pure, get, update, update_status, now, ◌>>=◌}
use axonops_operator.Client.{Client}
use axonops_operator.Client.Kafka.{
  KafkaTopicConfigUpdate, create_kafka_topic, update_kafka_topic_config, delete_kafka_topic,
}
use axonops_operator.Connection.{resolve_api_client, handle_connection_paused}
use axonops_operator.Metrics.{with_metrics}
use axonops_operator.Kafka.Topic.{
  Topic, topic_finalizer, conditions_of, with_conditions, with_finalizers, config_updates,
  create_request, failed_topic, synced_topic, is_up_to_date,
}
use axonops_operator.Prelude.{ℕ}

module _ {W : Type 0} (k : K8s) (std : Std) (env : Env W Topic) where
  unfoldable pub set_failed_condition : Topic → String → String → M W Topic (Unit {0})
  unfolding failed_topic update_status
  set_failed_condition t reason message = do
    _ ← update_status env (failed_topic k t reason message)
    pure tt

  -- A failed call of the API: the condition, and a retry for server errors only.
  unfoldable pub api_failed : Topic → String → String → Error → M W Topic Outcome
  unfolding set_failed_condition safe_condition_msg retryable
  api_failed t reason prefix e = do
    _ ← set_failed_condition t reason (safe_condition_msg prefix e)
    pure (if retryable e then requeue 30 else done)

  -- Re-fetch and update the status.
  unfoldable pub finish : Key → ℕ → M W Topic Outcome
  unfolding get now update_status synced_topic
  finish key synced_generation = do
    r ← get env key
    elim r [
      | err e ↦ pure (fail (k.ignore_not_found e))
      | ok t ↦ do
        time ← now env
        u ← update_status env (synced_topic k synced_generation time t)
        pure (elim u [ err e ↦ fail (some e) | ok _ ↦ done ])
    ]

  unfoldable pub create_topic : Key → Topic → Client → M W Topic Outcome
  unfolding create_request
  create_topic key t client = do
    r ← create_kafka_topic std env client t.spec.cluster_name (create_request t)
    elim r [
      | err e ↦ api_failed t "CreateFailed" "Failed to create topic" e
      | ok _ ↦ finish key t.metadata.generation
    ]

  unfoldable pub update_topic_configs :
      Key → Topic → Client → List KafkaTopicConfigUpdate → M W Topic Outcome
  update_topic_configs key t client [] = finish key t.metadata.generation
  update_topic_configs key t client (c ∷ cs) = do
    r ← update_kafka_topic_config std env client t.spec.cluster_name t.spec.name (c ∷ cs)
    elim r [
      | err e ↦ api_failed t "UpdateFailed" "Failed to update topic config" e
      | ok _ ↦ finish key t.metadata.generation
    ]

  -- What `Reconcile` does once the client is there.
  unfoldable pub sync : Key → Topic → Client → M W Topic Outcome
  unfolding is_up_to_date create_topic update_topic_configs config_updates
  sync key t client =
      if is_up_to_date k t
      then pure done
      else if t.status.synced
      then update_topic_configs key t client (config_updates t.spec.config)
      else create_topic key t client

  resolve_failed : Topic → Error → M W Topic Outcome
  unfolding is_connection_paused handle_connection_paused set_failed_condition safe_condition_msg
  resolve_failed t e =
      if is_connection_paused e
      then handle_connection_paused env k conditions_of with_conditions t
      else do
        _ ←
            set_failed_condition t "FailedToResolveConnection"
              (safe_condition_msg "Failed to resolve connection" e)
        pure (requeue 30)

  -- What `Reconcile` does with an object that is not being deleted.
  unfoldable pub reconcile_live : Key → Topic → M W Topic Outcome
  unfolding update resolve_failed sync
  reconcile_live key t =
      if k.contains_finalizer t.metadata.finalizers topic_finalizer
      then (do
        r ← resolve_api_client std env t.metadata.namespace t.spec.connection_ref
        elim r [ err e ↦ resolve_failed t e | ok client ↦ sync key t client ])
      else do
        r ← update env (with_finalizers (k.add_finalizer t.metadata.finalizers topic_finalizer) t)
        pure (elim r [ err e ↦ fail (some e) | ok _ ↦ done ])

  remove_finalizer : Topic → M W Topic Outcome
  unfolding update
  remove_finalizer t = do
    r ← update env (with_finalizers (k.remove_finalizer t.metadata.finalizers topic_finalizer) t)
    pure (elim r [ err e ↦ fail (some e) | ok _ ↦ done ])

  delete_then_release : Topic → Client → M W Topic Outcome
  unfolding remove_finalizer retryable
  delete_then_release t client =
      if t.status.synced
      then (do
        d ← delete_kafka_topic std env client t.spec.cluster_name t.spec.name
        elim d [
          | ok _ ↦ remove_finalizer t
          | err e ↦ if retryable e then pure (requeue 30) else remove_finalizer t
        ])
      else remove_finalizer t

  unfoldable pub handle_deletion : Topic → M W Topic Outcome
  unfolding delete_then_release
  handle_deletion t =
      if k.contains_finalizer t.metadata.finalizers topic_finalizer
      then (do
        r ← resolve_api_client std env t.metadata.namespace t.spec.connection_ref
        elim r [ err e ↦ pure (requeue 30) | ok client ↦ delete_then_release t client ])
      else pure done

  unfoldable pub reconcile_body : Key → M W Topic Outcome
  unfolding get reconcile_live handle_deletion
  reconcile_body key = do
    r ← get env key
    elim r [
      | err e ↦ pure (fail (k.ignore_not_found e))
      | ok t ↦
          if is_some t.metadata.deletion_timestamp then handle_deletion t else reconcile_live key t
    ]

  unfoldable pub reconcile : Key → M W Topic Outcome
  unfolding reconcile_body with_metrics
  reconcile key = with_metrics k "axonopskafkatopic" (reconcile_body key)
