-- ===== src/Backup/Records.antt =====
-- What the reconciler of backups records of a failure, and what later reconciles make of it.
use axonops_operator.Prelude.{String, ◌≡◌, ◌≢◌, true, false, List, ◌∷◌, eq_iff, arith, none}
use axonops_operator.Errors.{Error, ok, err, safe_condition_msg}
use axonops_operator.K8s.{Key, K8s, IsLawful, requeue}
use axonops_operator.Http.{Url, Std, Env, Run}
use axonops_operator.Http.Trace.{requests, status_updates}
use axonops_operator.Status.{is_ready, failed_condition, failed-ne-ready}
use axonops_operator.Client.{Client, request}
use axonops_operator.Client.Backup.{get_scheduled_snapshots}
use axonops_operator.Backup.{Backup, snapshot_exists, failed_backup, is_backup_synced}
use axonops_operator.Backup.Steps.{build_backup_payload, build_and_replace, check_drift, sync}
use axonops_operator.Backup.Sync.{list_url, calls-build_backup_payload}

module _ (k : K8s) (lawful : IsLawful k) where
  -- A failure leaves a backup that was ready with an id as one that counts as synced.
  is_backup_synced-failed_backup :
      (b : Backup) (reason message : String)
      → is_ready (k.find_status_condition b.status.conditions "Ready") ≡ true
      → b.status.synced_backup_id ≢ ""
      → is_backup_synced k (failed_backup k b reason message) ≡ true
  unfolding is_backup_synced failed_backup
  is_backup_synced-failed_backup b reason message ready given =
      rw
        (lawful.find-set_ne b.status.conditions
          (failed_condition b.metadata.generation reason message) "Ready" failed-ne-ready)
        (ground (arith, eq_iff b.status.synced_backup_id "", ready))

  module _ {W : Type 0} (std : Std) (env : Env W Backup) where
    -- A backup that counts as synced and that the API lists is left as it is.
    sync_listed :
        (key : Key) (b : Backup) (c : Client) (r : Run W Backup) (ids : List String) {u : Url}
        → is_backup_synced k b ≡ true
        → std.parse_url (list_url c b) ≡ ok u
        → (get_scheduled_snapshots std env c b.spec.cluster_type b.spec.cluster_name r).0 ≡ ok ids
        → snapshot_exists ids b.status.synced_backup_id ≡ true
        → ((sync k std env key b c r).0 ≡ requeue 300)
          × (requests (sync k std env key b c r).1.calls
              ≡ request c "GET" (list_url c b) none ∷ requests r.calls)
          × (status_updates (sync k std env key b c r).1.calls ≡ status_updates r.calls)
    unfolding sync check_drift get_scheduled_snapshots
    sync_listed key b c r ids synced url listed there =
        (ground (arith, synced), ground (arith, synced), ground (arith, synced))

    -- A backup that was synced before its specification changed: when its payload cannot be built,
    -- say because a secret is missing, a retry after 30 seconds is asked for, but the status that is
    -- written makes every later sync take the old snapshot for the new one, as long as the API lists
    -- it: it is asked for the list and nothing else, and nothing is written.
    pub failed_build-not_retried :
        (key : Key) (b : Backup) (c : Client) (r r' s : Run W Backup) (e : Error)
        (ids : List String) {u : Url}
        → is_backup_synced k b ≡ false
        → is_ready (k.find_status_condition b.status.conditions "Ready") ≡ true
        → b.status.synced_backup_id ≢ ""
        → build_backup_payload std env b r ≡ (err e, r')
        → std.parse_url (list_url c b) ≡ ok u
        → (get_scheduled_snapshots std env c b.spec.cluster_type b.spec.cluster_name s).0 ≡ ok ids
        → snapshot_exists ids b.status.synced_backup_id ≡ true
        → ((sync k std env key b c r).0 ≡ requeue 30)
          × (requests (sync k std env key b c r).1.calls ≡ requests r.calls)
          × (o : Backup) × (status_updates (sync k std env key b c r).1.calls
              ≡ o ∷ status_updates r.calls)
          × ((sync k std env key o c s).0 ≡ requeue 300)
          × (requests (sync k std env key o c s).1.calls
              ≡ request c "GET" (list_url c b) none ∷ requests s.calls)
          × (status_updates (sync k std env key o c s).1.calls ≡ status_updates s.calls)
    unfolding sync build_and_replace
    failed_build-not_retried key b c r r' s e ids old ready given fails url listed there =
        let message = safe_condition_msg "Failed to build backup payload" e in
        let o = failed_backup k b "PayloadBuildError" message in
        let quiet = calls-build_backup_payload std env b r in
        let synced = is_backup_synced-failed_backup b "PayloadBuildError" message ready given in
        let rest =
          sync_listed key o c s ids synced (unfold failed_backup in url)
            (unfold failed_backup in listed) (unfold failed_backup in there) in
        (
          ground (arith, old, fails),
          ground (arith, old, fails, quiet),
          o,
          ground (arith, old, fails, quiet),
          rest.0,
          unfold failed_backup in rest.1,
          rest.2,
        )
