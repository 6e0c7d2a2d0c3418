-- ===== src/Kafka/Acl/Records.antt =====
-- What the reconciler records in an ACL's status when the API refuses the entry.
use axonops_operator.Prelude.{String, ◌≡◌, true, false, ◌∷◌, arith, if◌then◌else◌}
use axonops_operator.Errors.{Error, err, retryable, safe_condition_msg}
use axonops_operator.K8s.{Key, K8s, IsLawful, done, requeue}
use axonops_operator.Http.{Std, Env, Run}
use axonops_operator.Http.Trace.{status_updates}
use axonops_operator.Client.{Client}
use axonops_operator.Client.Kafka.{create_kafka_acl}
use axonops_operator.Status.{is_ready, failed_condition, failed-ne-ready}
use axonops_operator.Kafka.Acl.{Acl, build_acl_payload, failed_acl, is_up_to_date}
use axonops_operator.Kafka.Acl.Steps.{sync}

module _ {W : Type 0} (k : K8s) (L : IsLawful k) (std : Std) (env : Env W Acl) where
  is_up_to_date-failed_acl :
      (a : Acl) (reason message : String)
      → is_ready (k.find_status_condition a.status.conditions "Ready") ≡ true
      → a.status.synced ≡ true
      → is_up_to_date k (failed_acl k a reason message) ≡ true
  unfolding is_up_to_date failed_acl
  is_up_to_date-failed_acl a reason message r s = ground (
    arith,
    L.find-set_ne a.status.conditions (failed_condition a.metadata.generation reason message)
        "Ready" failed-ne-ready,
  )

  sync_idle :
      (key : Key) (a : Acl) (c : Client) (s : Run W Acl)
      → is_up_to_date k a ≡ true
      → sync k std env key a c s ≡ (done, s)
  unfolding sync
  sync_idle key a c s h = rw h

  sync-create_failed :
      (key : Key) (a : Acl) (c : Client) (s : Run W Acl) (e : Error)
      → is_up_to_date k a ≡ false
      → (create_kafka_acl std env c a.spec.cluster_name (build_acl_payload a) s).0 ≡ err e
      → ((sync k std env key a c s).0 ≡ (if retryable e then requeue 30 else done))
        × (status_updates (sync k std env key a c s).1.calls
            ≡ failed_acl k a "CreateFailed" (safe_condition_msg "Failed to create ACL" e)
              ∷ status_updates s.calls)
  unfolding sync create_kafka_acl
  sync-create_failed key a c s e old failed = (ground arith, ground arith)

  -- An ACL that was ready and synced before its specification changed: when the creation of the
  -- new entry fails, the status that is written makes every later sync of that ACL do nothing, also
  -- where a retry after 30 seconds was asked for.
  pub failed_acl-not_retried :
      (key : Key) (a : Acl) (c : Client) (s : Run W Acl) (e : Error)
      → is_up_to_date k a ≡ false
      → is_ready (k.find_status_condition a.status.conditions "Ready") ≡ true
      → a.status.synced ≡ true
      → (create_kafka_acl std env c a.spec.cluster_name (build_acl_payload a) s).0 ≡ err e
      → ((sync k std env key a c s).0 ≡ (if retryable e then requeue 30 else done))
        × (o : Acl) × (status_updates (sync k std env key a c s).1.calls
            ≡ o ∷ status_updates s.calls)
        × ((s' : Run W Acl) → sync k std env key o c s' ≡ (done, s'))
  failed_acl-not_retried key a c s e old r sy fails =
      let message = safe_condition_msg "Failed to create ACL" e in
      let (outcome, written) = sync-create_failed key a c s e old fails in
      (
        outcome,
        failed_acl k a "CreateFailed" message,
        written,
        λ s'.
            sync_idle key (failed_acl k a "CreateFailed" message) c s'
              (is_up_to_date-failed_acl a "CreateFailed" message r sy),
      )
