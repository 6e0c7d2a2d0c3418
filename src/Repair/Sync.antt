-- ===== src/Repair/Sync.antt =====
-- What the reconciler of scheduled repairs sends and writes.
use axonops_operator.Prelude.{
  String, ◌≡◌, ◌⊎◌, none, ◌++◌, if◌then◌else◌, true, false, some, List, [], ◌∷◌, ◌<>◌, arith,
  eq_iff,
}
use axonops_operator.Errors.{ok}
use axonops_operator.K8s.{Key, K8s, requeue}
use axonops_operator.Http.{Request, Std, Url, Env, Run, status_updated}
use axonops_operator.Http.Trace.{requests, status_updates}
use axonops_operator.Client.{Client, request}
use axonops_operator.Client.Repair.{
  ScheduledRepairEntry, cluster_path, repair_params_json, get_scheduled_repairs,
  create_scheduled_repair,
}
use axonops_operator.Repair.{
  Repair, build_repair_params, repair_exists, failed_repair, drifted, is_synced, repair_finalizer,
}
use axonops_operator.Repair.Steps.{create, sync, reconcile_live, reconcile_body}

abbrev pub Sent : Request → List Request → Type 0
Sent r [] = ⊥
Sent r (q ∷ qs) = (q ≡ r) ⊎ Sent r qs

abbrev pub fresh : {W : Type 0} → W → Run W Repair
fresh w = record { world = w; calls = [] }

abbrev pub create_url : Client → Repair → String
create_url c r =
    c.base_url <> "/api/v1/addrepair/" <> cluster_path c r.spec.cluster_type r.spec.cluster_name

abbrev pub create_repair_request : Client → Repair → Request
create_repair_request c r =
    request c "POST" (create_url c r) (some (repair_params_json (build_repair_params r)))

module _ {W : Type 0} (k : K8s) (std : Std) (env : Env W Repair) where
  -- A repair that asks for both Paxos flags, and is not being deleted, never reaches the API: no
  -- request is sent, and the one status that is written is the Failed condition, once the object has
  -- its finalizer.
  pub reconcile_body-invalid :
      (key : Key) (s : Run W Repair) {r : Repair}
      → (env.get key s.world).0 ≡ ok r
      → r.metadata.deletion_timestamp ≡ none
      → r.spec.skip_paxos ≡ true
      → r.spec.paxos_only ≡ true
      → (requests (reconcile_body k std env key s).1.calls ≡ requests s.calls)
        × (status_updates (reconcile_body k std env key s).1.calls
            ≡ (if k.contains_finalizer r.metadata.finalizers repair_finalizer
                then failed_repair k r "ValidationError"
                    "SkipPaxos and PaxosOnly are mutually exclusive"
                  ∷ []
                else [])
              ++ status_updates s.calls)
  unfolding reconcile_body reconcile_live
  reconcile_body-invalid key s found live a b = (ground arith, ground arith)

  -- A synced repair that the API still lists is left alone: the sync reads the list once, writes
  -- nothing, and asks for the next drift check in five minutes.
  pub sync_present :
      (key : Key) (r : Repair) (c : Client) (s s' : Run W Repair) (es : List ScheduledRepairEntry)
      → is_synced k r ≡ true
      → get_scheduled_repairs std env c r.spec.cluster_type r.spec.cluster_name s ≡ (ok es, s')
      → repair_exists es r.status.synced_repair_id ≡ true
      → sync k std env key r c s ≡ (requeue 300, s')
  unfolding sync
  sync_present key r c s s' es old got found = ground arith

  pub create_posts :
      (key : Key) (r : Repair) (c : Client) (s : Run W Repair) {u : Url}
      → std.parse_url (create_url c r) ≡ ok u
      → Sent (create_repair_request c r) (requests (create k std env key r c s).1.calls)
  unfolding create create_scheduled_repair get_scheduled_repairs
  create_posts key r c s url = ground arith

  -- When a synced repair is gone from the API, the sync takes the object as the server keeps it once
  -- the drift is written to its status, without an id: it goes on as for a new repair, with no
  -- deletion, and asks the API to create the repair.
  pub sync-drifted :
      (key : Key) (r r' : Repair) (c : Client) (w : W) (s' : Run W Repair)
      (es : List ScheduledRepairEntry) {u : Url}
      → is_synced k r ≡ true
      → get_scheduled_repairs std env c r.spec.cluster_type r.spec.cluster_name (fresh w)
        ≡ (ok es, s')
      → repair_exists es r.status.synced_repair_id ≡ false
      → (env.update_status (drifted k r) s'.world).0 ≡ ok r'
      → r'.status.synced_repair_id ≡ ""
      → std.parse_url (create_url c r') ≡ ok u
      → (sync k std env key r c (fresh w)
          ≡ create k std env key r' c (record {
            world = (env.update_status (drifted k r) s'.world).1;
            calls = status_updated (drifted k r) ∷ s'.calls;
          }))
        × Sent (create_repair_request c r') (requests (sync k std env key r c (fresh w)).1.calls)
  unfolding sync
  sync-drifted key r r' c w s' es old got gone written cleared url =
      let same : sync k std env key r c (fresh w)
          ≡ create k std env key r' c (record {
            world = (env.update_status (drifted k r) s'.world).1;
            calls = status_updated (drifted k r) ∷ s'.calls;
          }) =
        ground (arith, eq_iff r'.status.synced_repair_id "") in
      (
        same,
        rw same (
            create_posts key r' c
              (record {
                world = (env.update_status (drifted k r) s'.world).1;
                calls = status_updated (drifted k r) ∷ s'.calls;
              })
              url),
      )
