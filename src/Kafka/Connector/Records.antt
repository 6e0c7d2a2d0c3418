-- ===== src/Kafka/Connector/Records.antt =====
-- What the reconciler records of a connector's type.
use axonops_operator.Prelude.{ℕ, String, ◌≡◌, true, false, ◌∷◌, refl, arith}
use axonops_operator.Errors.{ok}
use axonops_operator.K8s.{Key, K8s}
use axonops_operator.Http.{Response, Std, Env, Run}
use axonops_operator.Http.Trace.{status_updates}
use axonops_operator.Client.{Client}
use axonops_operator.Client.Kafka.{
  KafkaConnectorResponse, create_kafka_connector, update_kafka_connector_config,
}
use axonops_operator.Kafka.Connector.{Connector, create_request, synced_connector, is_up_to_date}
use axonops_operator.Kafka.Connector.Steps.{sync, finish}

module _ {W : Type 0} (k : K8s) (std : Std) (env : Env W Connector) where
  -- The connector that `finish` writes, if it finds the object.
  finish-writes :
      (key : Key) (n : ℕ) (type : String) (s : Run W Connector) {c' : Connector}
      → (env.get key s.world).0 ≡ ok c'
      → (time : ℕ) × (status_updates (finish k std env key n type s).1.calls
          ≡ synced_connector k n type time c' ∷ status_updates s.calls)
  unfolding finish
  finish-writes key n type s h = ((env.now (env.get key s.world).1).0, ground arith)

  status_updates-create :
      (c : Connector) (client : Client) (s : Run W Connector)
      → status_updates
          (create_kafka_connector std env client c.spec.cluster_name c.spec.connect_cluster_name
            (create_request c)
            s).1.calls
        ≡ status_updates s.calls
  unfolding create_kafka_connector
  status_updates-create c client s = ground arith

  status_updates-update :
      (c : Connector) (client : Client) (s : Run W Connector)
      → status_updates
          (update_kafka_connector_config std env client c.spec.cluster_name
            c.spec.connect_cluster_name c.spec.name c.spec.config s).1.calls
        ≡ status_updates s.calls
  unfolding update_kafka_connector_config
  status_updates-update c client s = ground arith

  -- A connector that is created records the type that the API answered.
  pub sync_created :
      (key : Key) (c c' : Connector) (client : Client) (s s' : Run W Connector)
      (resp : KafkaConnectorResponse)
      → is_up_to_date k c ≡ false
      → c.status.synced ≡ false
      → create_kafka_connector std env client c.spec.cluster_name c.spec.connect_cluster_name
          (create_request c)
          s
        ≡ (ok resp, s')
      → (env.get key s'.world).0 ≡ ok c'
      → (o : Connector) × (status_updates (sync k std env key c client s).1.calls
          ≡ o ∷ status_updates s.calls)
        × (o.status.connector_type ≡ resp.type)
  unfolding sync
  sync_created key c c' client s s' resp old fresh made found =
      let (time, written) = finish-writes key c.metadata.generation resp.type s' found in
      (
        synced_connector k c.metadata.generation resp.type time c',
        ground (arith, written, status_updates-create c client s),
        unfold synced_connector in refl,
      )

  -- A connector whose configuration is updated keeps the type that it had when the reconcile read
  -- it, whatever the re-fetched status says.
  pub sync_updated :
      (key : Key) (c c' : Connector) (client : Client) (s s' : Run W Connector) (resp : Response)
      → is_up_to_date k c ≡ false
      → c.status.synced ≡ true
      → update_kafka_connector_config std env client c.spec.cluster_name c.spec.connect_cluster_name
          c.spec.name c.spec.config s
        ≡ (ok resp, s')
      → (env.get key s'.world).0 ≡ ok c'
      → (o : Connector) × (status_updates (sync k std env key c client s).1.calls
          ≡ o ∷ status_updates s.calls)
        × (o.status.connector_type ≡ c.status.connector_type)
  unfolding sync
  sync_updated key c c' client s s' resp old synced made found =
      let (time, written) =
        finish-writes key c.metadata.generation c.status.connector_type s' found in
      (
        synced_connector k c.metadata.generation c.status.connector_type time c',
        ground (arith, written, status_updates-update c client s),
        unfold synced_connector in refl,
      )
