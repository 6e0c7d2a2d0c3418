-- ===== src/Kafka/Topic/Deletion.antt =====
-- What the reconciler does with a topic that is being deleted, and before it has its finalizer.
use axonops_operator.Prelude.{
  String, ◌≡◌, ◌⊎◌, Bool, true, false, none, [], ◌∷◌, ◌++◌, ◌&&◌, if◌then◌else◌, leb, arith,
}
use axonops_operator.Errors.{Error, Result, ok, err, retryable}
use axonops_operator.K8s.{Key, K8s, requeue}
use axonops_operator.Http.{Response, Std, Url, Env, Run}
use axonops_operator.Http.Trace.{requests, updates}
use axonops_operator.Client.{Client, request}
use axonops_operator.Client.Kafka.{topic_url, delete_kafka_topic}
use axonops_operator.Connection.{resolve_api_client}
use axonops_operator.Connection.Laws.{calls-resolve_api_client}
use axonops_operator.Kafka.Topic.{Topic, topic_finalizer, with_finalizers}
use axonops_operator.Kafka.Topic.Steps.{handle_deletion, reconcile_body}

module _ {W : Type 0} (std : Std) (env : Env W Topic) (c : Client) (cluster name : String) where
  updates-delete :
      (s : Run W Topic)
      → updates (delete_kafka_topic std env c cluster name s).1.calls ≡ updates s.calls
  unfolding delete_kafka_topic
  updates-delete s = ground arith

-- Whether an answer of the API is a server error, or a failure of the call that carries one.
abbrev pub is_server_failure : Result Response → Bool
is_server_failure (ok resp) = leb 500 resp.status_code
is_server_failure (err e) = retryable e

module _ {W : Type 0} (k : K8s) (std : Std) (env : Env W Topic) where
  -- The outcome, the writes and the requests of the deletion of a topic that has its finalizer and
  -- whose connection resolves. A synced topic is deleted at the API, once, and one that was never
  -- synced makes no request. When the API answers with a server error, or the call fails with an
  -- error that carries one, the topic is kept as it is and tried again in 30 seconds. In every
  -- other case it is written once, without the finalizer.
  pub handle_deletion_cases :
      (t : Topic) (s s' : Run W Topic) (c : Client) {u : Url}
      → k.contains_finalizer t.metadata.finalizers topic_finalizer ≡ true
      → resolve_api_client std env t.metadata.namespace t.spec.connection_ref s ≡ (ok c, s')
      → std.parse_url (topic_url c t.spec.cluster_name t.spec.name) ≡ ok u
      → (requests (handle_deletion k std env t s).1.calls
          ≡ (if t.status.synced
              then request c "DELETE" (topic_url c t.spec.cluster_name t.spec.name) none ∷ []
              else [])
            ++ requests s.calls)
        × (updates (handle_deletion k std env t s).1.calls
            ≡ (if t.status.synced
                  && is_server_failure
                      (env.send
                        (request c "DELETE" (topic_url c t.spec.cluster_name t.spec.name) none)
                        s'.world).0
                then []
                else with_finalizers (k.remove_finalizer t.metadata.finalizers topic_finalizer) t
                  ∷ [])
              ++ updates s.calls)
        × (((t.status.synced
                && is_server_failure
                    (env.send
                      (request c "DELETE" (topic_url c t.spec.cluster_name t.spec.name) none)
                      s'.world).0)
              ≡ false)
            ⊎ ((handle_deletion k std env t s).0 ≡ requeue 30))
  unfolding handle_deletion delete_kafka_topic retryable
  handle_deletion_cases t s s' c fin res url =
      let calls = calls-resolve_api_client std env t.metadata.namespace t.spec.connection_ref s in
      (ground (arith, calls), ground (arith, calls), ground arith)

  -- What a deletion does once the API has answered: the finalizer goes unless the answer was a
  -- server error. So it goes when a success carries an error in its body, and when there was no
  -- answer at all.
  pub handle_deletion_gives_up :
      (t : Topic) (s s' : Run W Topic) (c : Client) (e : Error)
      → k.contains_finalizer t.metadata.finalizers topic_finalizer ≡ true
      → t.status.synced ≡ true
      → resolve_api_client std env t.metadata.namespace t.spec.connection_ref s ≡ (ok c, s')
      → (delete_kafka_topic std env c t.spec.cluster_name t.spec.name s').0 ≡ err e
      → retryable e ≡ false
      → updates (handle_deletion k std env t s).1.calls
        ≡ with_finalizers (k.remove_finalizer t.metadata.finalizers topic_finalizer) t
          ∷ updates s'.calls
  unfolding handle_deletion
  handle_deletion_gives_up t s s' c e fin sy res failed perm =
      ground (arith, updates-delete std env c t.spec.cluster_name t.spec.name s')

  -- An object that lacks the finalizer, being deleted or not, makes no request to the API.
  pub requests-reconcile_body_unguarded :
      (key : Key) (s : Run W Topic) {t : Topic}
      → (env.get key s.world).0 ≡ ok t
      → k.contains_finalizer t.metadata.finalizers topic_finalizer ≡ false
      → requests (reconcile_body k std env key s).1.calls ≡ requests s.calls
  unfolding reconcile_body
  requests-reconcile_body_unguarded key s h fin = ground arith
