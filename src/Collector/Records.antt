-- ===== src/Collector/Records.antt =====
-- What the reconciler of log collectors records, and what the next reconcile makes of it.
use axonops_operator.Prelude.{
  ℕ, String, ◌≡◌, ◌≢◌, refl, true, Option, some, List, ◌∷◌, eq_iff, arith,
}
use axonops_operator.Errors.{Error, connection_paused, ok, err, error_text, safe_condition_msg}
use axonops_operator.K8s.{Key, K8s, IsLawful, requeue}
use axonops_operator.Status.{failed_condition, is_ready, failed-ne-ready}
use axonops_operator.Http.{Std, Env, Run}
use axonops_operator.Http.Trace.{requests, status_updates}
use axonops_operator.Client.{Client}
use axonops_operator.Client.Collector.{LogCollector, get_log_collectors, put_log_collectors}
use axonops_operator.Connection.{resolve_api_client}
use axonops_operator.Collector.{
  Collector, collector_finalizer, merge, collector_exists, failed_collector, synced_collector,
  ready_condition, is_synced,
}
use axonops_operator.Collector.Merge.{exists-merge}
use axonops_operator.Collector.Steps.{put_merged, sync, reconcile_live}

module _ {W : Type 0} (k : K8s) (std : Std) (env : Env W Collector) where
  -- A synced collector that the API still lists is left alone.
  sync_present :
      (key : Key) (c : Collector) (client : Client) (s s' : Run W Collector)
      (ls : List LogCollector)
      → is_synced k c ≡ true
      → get_log_collectors std env client c.spec.cluster_type c.spec.cluster_name s ≡ (ok ls, s')
      → collector_exists ls c.status.synced_uuid ≡ true
      → sync k std env key c client s ≡ (requeue 300, s')
  unfolding sync
  sync_present key c client s s' ls old got found = ground arith

  paused_message :
      safe_condition_msg "Failed to resolve connection" connection_paused
      ≡ "Failed to resolve connection: AxonOpsConnection is paused"
  unfolding safe_condition_msg error_text
  paused_message = refl

  -- A paused connection is a failure like any other: the Failed condition is written, with the text
  -- of the error, and a retry after 30 seconds is asked for.
  pub reconcile_live-paused :
      (key : Key) (c : Collector) (s s' : Run W Collector)
      → k.contains_finalizer c.metadata.finalizers collector_finalizer ≡ true
      → resolve_api_client std env c.metadata.namespace c.spec.connection_ref s
        ≡ (err connection_paused, s')
      → ((reconcile_live k std env key c s).0 ≡ requeue 30)
        × (requests (reconcile_live k std env key c s).1.calls ≡ requests s'.calls)
        × (status_updates (reconcile_live k std env key c s).1.calls
            ≡ failed_collector k c "FailedToResolveConnection"
                "Failed to resolve connection: AxonOpsConnection is paused"
              ∷ status_updates s'.calls)
  unfolding reconcile_live
  reconcile_live-paused key c s s' fin res =
      (ground arith, ground arith, ground (arith, paused_message))

  module _ (L : IsLawful k) where
    is_synced-failed :
        (c : Collector) (reason message : String)
        → is_ready (k.find_status_condition c.status.conditions "Ready") ≡ true
        → c.status.synced_uuid ≢ ""
        → is_synced k (failed_collector k c reason message) ≡ true
    unfolding is_synced failed_collector
    is_synced-failed c reason message r given = ground (
      arith,
      eq_iff c.status.synced_uuid "",
      L.find-set_ne c.status.conditions (failed_condition c.metadata.generation reason message)
          "Ready" failed-ne-ready,
    )

    status_updates-put :
        (client : Client) (type cluster : String) (ls : Option (List LogCollector))
        (s : Run W Collector)
        → status_updates (put_log_collectors std env client type cluster ls s).1.calls
          ≡ status_updates s.calls
    unfolding put_log_collectors
    status_updates-put client type cluster ls s = ground arith

    put_failed :
        (key : Key) (c : Collector) (client : Client) (es : List LogCollector) (s : Run W Collector)
        (e : Error)
        → (put_log_collectors std env client c.spec.cluster_type c.spec.cluster_name
            (some (merge c (env.new_uuid s.world).0 es).0)
            (record s { world = (env.new_uuid s.world).1 })).0
          ≡ err e
        → ((put_merged k std env key c client es s).0 ≡ requeue 30)
          × (status_updates (put_merged k std env key c client es s).1.calls
              ≡ failed_collector k c "SyncFailed"
                  (safe_condition_msg "Failed to sync log collectors" e)
                ∷ status_updates s.calls)
    unfolding put_merged
    put_failed key c client es s e failed = (
      ground arith,
      ground (
        arith,
        failed,
        status_updates-put client c.spec.cluster_type c.spec.cluster_name
            (some (merge c (env.new_uuid s.world).0 es).0)
            (record s { world = (env.new_uuid s.world).1 }),
      ),
    )

    -- A collector that was ready and synced before its specification changed: when the changed list
    -- cannot be written, a retry after 30 seconds is asked for, but the status that is written makes
    -- every later sync leave the list alone, as long as the API lists the old entry.
    pub failed_put-not_retried :
        (key : Key) (c : Collector) (client : Client) (es ls : List LogCollector)
        (s t t' : Run W Collector) (e : Error)
        → is_ready (k.find_status_condition c.status.conditions "Ready") ≡ true
        → c.status.synced_uuid ≢ ""
        → (put_log_collectors std env client c.spec.cluster_type c.spec.cluster_name
            (some (merge c (env.new_uuid s.world).0 es).0)
            (record s { world = (env.new_uuid s.world).1 })).0
          ≡ err e
        → get_log_collectors std env client c.spec.cluster_type c.spec.cluster_name t ≡ (ok ls, t')
        → collector_exists ls c.status.synced_uuid ≡ true
        → ((put_merged k std env key c client es s).0 ≡ requeue 30)
          × (o : Collector) × (status_updates (put_merged k std env key c client es s).1.calls
              ≡ o ∷ status_updates s.calls)
          × (o.spec ≡ c.spec)
          × (sync k std env key o client t ≡ (requeue 300, t'))
    failed_put-not_retried key c client es ls s t t' e r given failed got found =
        let message = safe_condition_msg "Failed to sync log collectors" e in
        let o = failed_collector k c "SyncFailed" message in
        let (outcome, written) = put_failed key c client es s e failed in
        (
          outcome,
          o,
          written,
          unfold failed_collector in refl,
          sync_present key o client t t' ls (is_synced-failed c "SyncFailed" message r given)
              (unfold failed_collector in got) (unfold failed_collector in found),
        )

    is_synced-synced :
        (c : Collector) (id : String) (time : ℕ)
        → id ≢ ""
        → is_synced k (synced_collector k id c.metadata.generation time c) ≡ true
    unfolding is_synced synced_collector is_ready
    is_synced-synced c id time given = ground (
      arith,
      eq_iff id "",
      L.find-remove_ne
          (k.set_status_condition c.status.conditions (ready_condition c.metadata.generation))
          "Failed" "Ready" failed-ne-ready,
      L.find-set_self c.status.conditions (ready_condition c.metadata.generation),
    )

    -- Once the list that a sync writes is the list that the API has, and the status that it records
    -- is the status of the object, the next sync reads the list and does nothing.
    pub sync_settles :
        (key : Key) (c : Collector) (client : Client) (fresh : String) (es : List LogCollector)
        (time : ℕ) (s s' : Run W Collector)
        → (merge c fresh es).1 ≢ ""
        → get_log_collectors std env client c.spec.cluster_type c.spec.cluster_name s
          ≡ (ok (merge c fresh es).0, s')
        → sync k std env key
            (synced_collector k (merge c fresh es).1 c.metadata.generation time c)
            client
            s
          ≡ (requeue 300, s')
    sync_settles key c client fresh es time s s' given got =
        sync_present key (synced_collector k (merge c fresh es).1 c.metadata.generation time c)
          client s s' (merge c fresh es).0 (is_synced-synced c (merge c fresh es).1 time given)
          (unfold synced_collector in got) (unfold synced_collector in exists-merge c fresh es)
