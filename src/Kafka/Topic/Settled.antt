-- ===== src/Kafka/Topic/Settled.antt =====
-- What later reconciles do with a topic that was synced.
use axonops_operator.Prelude.{ℕ, ◌≡◌, refl, ◌∙◌, true, none, nat_eq, arith}
use axonops_operator.Errors.{ok}
use axonops_operator.K8s.{Key, K8s, IsLawful}
use axonops_operator.Http.{Std, Env, Run}
use axonops_operator.Http.Trace.{requests}
use axonops_operator.Connection.Laws.{calls-resolve_api_client}
use axonops_operator.Kafka.Topic.{Topic, synced_topic, is_up_to_date}
use axonops_operator.Kafka.Topic.Steps.{sync, reconcile_live, reconcile_body}
use axonops_operator.Kafka.Topic.Records.{is_up_to_date-synced_topic}

same : (n : ℕ) → nat_eq n n ≡ true
same n = ground arith

module _ {W : Type 0} (k : K8s) (std : Std) (env : Env W Topic) where
  requests-reconcile_live :
      (key : Key) (t : Topic) (r : Run W Topic)
      → is_up_to_date k t ≡ true
      → requests (reconcile_live k std env key t r).1.calls ≡ requests r.calls
  unfolding reconcile_live sync
  requests-reconcile_live key t r h =
      ground (arith, calls-resolve_api_client std env t.metadata.namespace t.spec.connection_ref r)

  up_to_date :
      (L : IsLawful k) (time : ℕ) (t : Topic)
      → is_up_to_date k (synced_topic k t.metadata.generation time t) ≡ true
  up_to_date L time t =
      is_up_to_date-synced_topic k L t.metadata.generation time t ∙ same t.metadata.generation

  live_of : (n time : ℕ) (t : Topic) → (synced_topic k n time t).metadata ≡ t.metadata
  unfolding synced_topic
  live_of n time t = refl

  -- A topic that was synced at its current generation, and is not being deleted, makes no request to
  -- the API on any later reconcile that finds it as it was recorded, whatever its connection.
  pub requests-reconcile_settled :
      (L : IsLawful k) (key : Key) (time : ℕ) (t : Topic) (r : Run W Topic)
      → t.metadata.deletion_timestamp ≡ none
      → (env.get key r.world).0 ≡ ok (synced_topic k t.metadata.generation time t)
      → requests (reconcile_body k std env key r).1.calls ≡ requests r.calls
  unfolding reconcile_body
  requests-reconcile_settled L key time t r live found =
      let o = synced_topic k t.metadata.generation time t in
      ground (
        arith,
        found,
        live,
        live_of t.metadata.generation time t,
        requests-reconcile_live key o (record r { world = (env.get key r.world).1 })
            (up_to_date L time t),
      )
