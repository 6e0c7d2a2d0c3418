-- ===== src/Kafka/Topic/Sync.antt =====
-- What a sync of a topic sends and writes.
use axonops_operator.Prelude.{ℕ, String, ◌≡◌, some, List, [], ◌∷◌, ◌++◌, ◌<>◌, arith, if◌then◌else◌}
use axonops_operator.Errors.{Error, ok}
use axonops_operator.K8s.{Key, K8s}
use axonops_operator.Http.{Request, Std, Url, Env, Run}
use axonops_operator.Http.Trace.{requests}
use axonops_operator.Client.{Client, request}
use axonops_operator.Client.Kafka.{
  topics_url, topic_url, topic_json, config_updates_json, KafkaTopicConfigUpdate,
  create_kafka_topic, update_kafka_topic_config,
}
use axonops_operator.Kafka.Topic.{Topic, config_updates, create_request, is_up_to_date}
use axonops_operator.Kafka.Topic.Steps.{
  sync, finish, create_topic, update_topic_configs, api_failed,
}

-- The requests that a topic calls for: none if it is up to date, its creation if it was never
-- synced, and else its configuration, unless that is empty.
abbrev put_configs : Client → Topic → List KafkaTopicConfigUpdate → List Request
put_configs c t [] = []
put_configs c t (u ∷ us) =
    request c "PUT" (topic_url c t.spec.cluster_name t.spec.name <> "/configs")
      (some (config_updates_json (u ∷ us)))
    ∷ []

unfoldable pub plan : K8s → Client → Topic → List Request
plan k c t =
    if is_up_to_date k t
    then []
    else if t.status.synced
    then put_configs c t (config_updates t.spec.config)
    else request c "POST" (topics_url c t.spec.cluster_name) (some (topic_json (create_request t)))
      ∷ []

module _ {W : Type 0} (k : K8s) (std : Std) (env : Env W Topic) where
  requests-finish :
      (key : Key) (n : ℕ) (s : Run W Topic)
      → requests (finish k std env key n s).1.calls ≡ requests s.calls
  unfolding finish
  requests-finish key n s = ground arith

  requests-api_failed :
      (t : Topic) (reason prefix : String) (e : Error) (s : Run W Topic)
      → requests (api_failed k std env t reason prefix e s).1.calls ≡ requests s.calls
  unfolding api_failed
  requests-api_failed t reason prefix e s = ground arith

  requests-create :
      (key : Key) (t : Topic) (c : Client) (s : Run W Topic) {u : Url}
      → std.parse_url (topics_url c t.spec.cluster_name) ≡ ok u
      → requests (create_topic k std env key t c s).1.calls
        ≡ request c "POST" (topics_url c t.spec.cluster_name) (some (topic_json (create_request t)))
          ∷ requests s.calls
  unfolding create_topic create_kafka_topic
  requests-create key t c s h = grind (arith, requests-finish, requests-api_failed)

  requests-update :
      (key : Key) (t : Topic) (c : Client) (us : List KafkaTopicConfigUpdate) (s : Run W Topic)
      {v : Url}
      → std.parse_url (topic_url c t.spec.cluster_name t.spec.name <> "/configs") ≡ ok v
      → requests (update_topic_configs k std env key t c us s).1.calls
        ≡ put_configs c t us ++ requests s.calls
  unfolding update_topic_configs update_kafka_topic_config
  requests-update key t c [] s h = requests-finish key t.metadata.generation s
  requests-update key t c (u ∷ us) s h = grind (arith, requests-finish, requests-api_failed)

  -- Where the URLs of the topic parse, a sync sends exactly the requests that the topic calls for:
  -- none if it is up to date, its creation if it was never synced, and else its configuration unless
  -- that is empty; and it does so whatever the API and the cluster answer.
  pub requests-sync :
      (key : Key) (t : Topic) (c : Client) (s : Run W Topic) {u v : Url}
      → std.parse_url (topics_url c t.spec.cluster_name) ≡ ok u
      → std.parse_url (topic_url c t.spec.cluster_name t.spec.name <> "/configs") ≡ ok v
      → requests (sync k std env key t c s).1.calls ≡ plan k c t ++ requests s.calls
  unfolding sync plan
  requests-sync key t c s h h' = ground (
    arith,
    requests-create key t c s h,
    requests-update key t c (config_updates t.spec.config) s h',
  )
