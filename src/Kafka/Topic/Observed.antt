-- ===== src/Kafka/Topic/Observed.antt =====
-- What the metrics see of the reconciler of topics.
use axonops_operator.Prelude.{ℕ, String, ◌≡◌, List, [], ◌∷◌, is_some, arith, if◌then◌else◌}
use axonops_operator.Errors.{Error}
use axonops_operator.K8s.{Key, K8s}
use axonops_operator.Http.{Std, Env, Run}
use axonops_operator.Http.Trace.{observations}
use axonops_operator.Client.{Client}
use axonops_operator.Client.Kafka.{
  KafkaTopicConfigUpdate, create_kafka_topic, update_kafka_topic_config, delete_kafka_topic,
}
use axonops_operator.Connection.Laws.{calls-resolve_api_client}
use axonops_operator.Metrics.{error_class}
use axonops_operator.Kafka.Topic.{Topic, config_updates}
use axonops_operator.Kafka.Topic.Steps.{
  finish, api_failed, create_topic, update_topic_configs, sync, reconcile_live, handle_deletion,
  reconcile_body, reconcile,
}

module _ {W : Type 0} (k : K8s) (std : Std) (env : Env W Topic) where
  observations-finish :
      (key : Key) (n : ℕ) (s : Run W Topic)
      → observations (finish k std env key n s).1.calls ≡ observations s.calls
  unfolding finish
  observations-finish key n s = ground arith

  observations-api_failed :
      (t : Topic) (reason prefix : String) (e : Error) (s : Run W Topic)
      → observations (api_failed k std env t reason prefix e s).1.calls ≡ observations s.calls
  unfolding api_failed
  observations-api_failed t reason prefix e s = ground arith

  observations-create :
      (key : Key) (t : Topic) (c : Client) (s : Run W Topic)
      → observations (create_topic k std env key t c s).1.calls ≡ observations s.calls
  unfolding create_topic create_kafka_topic
  observations-create key t c s = grind (arith, observations-finish, observations-api_failed)

  observations-update :
      (key : Key) (t : Topic) (c : Client) (us : List KafkaTopicConfigUpdate) (s : Run W Topic)
      → observations (update_topic_configs k std env key t c us s).1.calls ≡ observations s.calls
  unfolding update_topic_configs update_kafka_topic_config
  observations-update key t c [] s = observations-finish key t.metadata.generation s
  observations-update key t c (u ∷ us) s =
      grind (arith, observations-finish, observations-api_failed)

  observations-sync :
      (key : Key) (t : Topic) (c : Client) (s : Run W Topic)
      → observations (sync k std env key t c s).1.calls ≡ observations s.calls
  unfolding sync
  observations-sync key t c s = ground (
    arith,
    observations-create key t c s,
    observations-update key t c (config_updates t.spec.config) s,
  )

  observations-live :
      (key : Key) (t : Topic) (s : Run W Topic)
      → observations (reconcile_live k std env key t s).1.calls ≡ observations s.calls
  unfolding reconcile_live
  observations-live key t s = grind (arith, calls-resolve_api_client, observations-sync)

  observations-deletion :
      (t : Topic) (s : Run W Topic)
      → observations (handle_deletion k std env t s).1.calls ≡ observations s.calls
  unfolding handle_deletion delete_kafka_topic
  observations-deletion t s =
      ground (arith, calls-resolve_api_client std env t.metadata.namespace t.spec.connection_ref s)

  observations-body :
      (key : Key) (s : Run W Topic)
      → observations (reconcile_body k std env key s).1.calls ≡ observations s.calls
  unfolding reconcile_body
  observations-body key s = grind (arith, observations-live, observations-deletion)

  -- Each reconcile of a topic reports its outcome once, under its controller's name: as an error, with
  -- the error's class, exactly if it returns an error.
  pub observations-reconcile :
      (key : Key) (s : Run W Topic)
      → observations (reconcile k std env key s).1.calls
        ≡ (
          "axonopskafkatopic",
          if is_some (reconcile k std env key s).0.error then "error" else "success",
          error_class k (reconcile k std env key s).0.error,
        )
          ∷ observations s.calls
  unfolding reconcile
  observations-reconcile key s = ground (arith, observations-body key s)
