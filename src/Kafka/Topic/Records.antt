-- ===== src/Kafka/Topic/Records.antt =====
-- What the reconciler records in a topic's status, and what the next reconcile makes of it.
use axonops_operator.Prelude.{
  ℕ, String, ◌≡◌, ◌≢◌, refl, true, false, none, List, ◌∷◌, nat_eq, arith, if◌then◌else◌,
}
use axonops_operator.Errors.{Error, ok, err, retryable, safe_condition_msg}
use axonops_operator.K8s.{Key, K8s, IsLawful, done, requeue}
use axonops_operator.Http.{Std, Env, Run}
use axonops_operator.Http.Trace.{status_updates}
use axonops_operator.Client.{Client}
use axonops_operator.Client.Kafka.{KafkaTopicConfigUpdate, update_kafka_topic_config}
use axonops_operator.Status.{is_ready, failed_condition, failed-ne-ready}
use axonops_operator.Kafka.Topic.{
  Topic, config_updates, failed_topic, synced_topic, ready_condition, is_up_to_date,
}
use axonops_operator.Kafka.Topic.Steps.{sync, finish, api_failed}

module _ (k : K8s) (L : IsLawful k) where
  synced-ready :
      (n time : ℕ) (t : Topic)
      → is_ready (k.find_status_condition (synced_topic k n time t).status.conditions "Ready")
        ≡ true
  unfolding synced_topic is_ready
  synced-ready n time t = ground (
    arith,
    L.find-remove_ne (k.set_status_condition t.status.conditions (ready_condition n)) "Failed"
        "Ready" failed-ne-ready,
    L.find-set_self t.status.conditions (ready_condition n),
  )

  -- The status after a sync counts as up to date exactly at the generation that was synced.
  pub is_up_to_date-synced_topic :
      (n time : ℕ) (t : Topic)
      → is_up_to_date k (synced_topic k n time t) ≡ nat_eq n t.metadata.generation
  unfolding is_up_to_date synced_topic
  is_up_to_date-synced_topic n time t = ground (arith, synced-ready n time t)

  -- A failure keeps a topic ready, and moves its observed generation on.
  is_up_to_date-failed_topic :
      (t : Topic) (reason message : String)
      → is_ready (k.find_status_condition t.status.conditions "Ready") ≡ true
      → t.status.synced ≡ true
      → is_up_to_date k (failed_topic k t reason message) ≡ true
  unfolding is_up_to_date failed_topic
  is_up_to_date-failed_topic t reason message r s = ground (
    arith,
    L.find-set_ne t.status.conditions (failed_condition t.metadata.generation reason message)
        "Ready" failed-ne-ready,
  )

  synced-not_failed :
      (n time : ℕ) (t : Topic)
      → k.find_status_condition (synced_topic k n time t).status.conditions "Failed" ≡ none
  unfolding synced_topic
  synced-not_failed n time t =
      L.find-remove_self (k.set_status_condition t.status.conditions (ready_condition n)) "Failed"

  synced_others :
      (n time : ℕ) (t : Topic) (ty : String)
      → "Ready" ≢ ty
      → "Failed" ≢ ty
      → k.find_status_condition (synced_topic k n time t).status.conditions ty
        ≡ k.find_status_condition t.status.conditions ty
  unfolding synced_topic
  synced_others n time t ty r f = ground (
    arith,
    L.find-remove_ne (k.set_status_condition t.status.conditions (ready_condition n)) "Failed" ty f,
    L.find-set_ne t.status.conditions (ready_condition n) ty r,
  )

  module _ {W : Type 0} (std : Std) (env : Env W Topic) where
    -- When the last steps of a sync find the topic, they write one status. It keeps the metadata
    -- and the specification as they were fetched, has no Failed condition, keeps any condition but
    -- Ready and Failed, and counts as up to date for the next reconcile exactly if the fetched
    -- generation is the generation that was synced.
    pub finish-records :
        (key : Key) (n : ℕ) (s : Run W Topic) (ty : String) {t : Topic}
        → (env.get key s.world).0 ≡ ok t
        → "Ready" ≢ ty
        → "Failed" ≢ ty
        → (o : Topic) × (status_updates (finish k std env key n s).1.calls
            ≡ o ∷ status_updates s.calls)
          × (o.metadata ≡ t.metadata)
          × (o.spec ≡ t.spec)
          × (k.find_status_condition o.status.conditions "Failed" ≡ none)
          × (k.find_status_condition o.status.conditions ty
              ≡ k.find_status_condition t.status.conditions ty)
          × (is_up_to_date k o ≡ nat_eq n t.metadata.generation)
    unfolding finish
    finish-records key n s ty {t} h ready failed =
        let time = (env.now (env.get key s.world).1).0 in
        (
          synced_topic k n time t,
          ground arith,
          unfold synced_topic in refl,
          unfold synced_topic in refl,
          synced-not_failed n time t,
          synced_others n time t ty ready failed,
          is_up_to_date-synced_topic n time t,
        )

    sync_idle :
        (key : Key) (t : Topic) (c : Client) (s : Run W Topic)
        → is_up_to_date k t ≡ true
        → sync k std env key t c s ≡ (done, s)
    unfolding sync
    sync_idle key t c s h = rw h

    -- The failure of an update: the outcome, and the status that is written.
    sync_update_failed :
        (key : Key) (t : Topic) (c : Client) (u : KafkaTopicConfigUpdate)
        (us : List KafkaTopicConfigUpdate) (s : Run W Topic) (e : Error)
        → is_up_to_date k t ≡ false
        → t.status.synced ≡ true
        → config_updates t.spec.config ≡ u ∷ us
        → (update_kafka_topic_config std env c t.spec.cluster_name t.spec.name (u ∷ us) s).0 ≡ err e
        → ((sync k std env key t c s).0 ≡ (if retryable e then requeue 30 else done))
          × (status_updates (sync k std env key t c s).1.calls
              ≡ failed_topic k t "UpdateFailed"
                  (safe_condition_msg "Failed to update topic config" e)
                ∷ status_updates s.calls)
    unfolding sync api_failed update_kafka_topic_config
    sync_update_failed key t c u us s e old sy cfg fails = rw (old, sy, cfg) (ground arith)

    -- A topic that was ready and synced before its specification changed: when the update of its
    -- configuration fails, a retry after 30 seconds is asked for if the error is retryable, but the
    -- status that is written makes every later sync of that topic do nothing.
    pub failed_update-not_retried :
        (key : Key) (t : Topic) (c : Client) (u : KafkaTopicConfigUpdate)
        (us : List KafkaTopicConfigUpdate) (s : Run W Topic) (e : Error)
        → is_up_to_date k t ≡ false
        → is_ready (k.find_status_condition t.status.conditions "Ready") ≡ true
        → t.status.synced ≡ true
        → config_updates t.spec.config ≡ u ∷ us
        → (update_kafka_topic_config std env c t.spec.cluster_name t.spec.name (u ∷ us) s).0 ≡ err e
        → ((sync k std env key t c s).0 ≡ (if retryable e then requeue 30 else done))
          × (o : Topic) × (status_updates (sync k std env key t c s).1.calls
              ≡ o ∷ status_updates s.calls)
          × ((s' : Run W Topic) → sync k std env key o c s' ≡ (done, s'))
    failed_update-not_retried key t c u us s e old r sy cfg fails =
        let message = safe_condition_msg "Failed to update topic config" e in
        let (outcome, written) = sync_update_failed key t c u us s e old sy cfg fails in
        (
          outcome,
          failed_topic k t "UpdateFailed" message,
          written,
          λ s'.
              sync_idle key (failed_topic k t "UpdateFailed" message) c s'
                (is_up_to_date-failed_topic t "UpdateFailed" message r sy),
        )
