-- ===== src/Repair/Repeats.antt =====
-- Where the reconciler of scheduled repairs creates a repair a second time.
use axonops_operator.Prelude.{String, ◌≡◌, false, refl, sym, List, ◌∷◌, arith, eq_iff}
use axonops_operator.Errors.{Error, ok, err}
use axonops_operator.K8s.{Key, K8s, requeue}
use axonops_operator.Http.{Response, Std, Url, Env, Run}
use axonops_operator.Http.Trace.{requests, updates, status_updates}
use axonops_operator.Client.{Client}
use axonops_operator.Client.Repair.{
  ScheduledRepairEntry, get_scheduled_repairs, create_scheduled_repair,
}
use axonops_operator.Repair.{
  Repair, build_repair_params, find_repair_id_by_tag, synced_repair, is_synced,
}
use axonops_operator.Repair.Steps.{finish, create, sync}
use axonops_operator.Repair.Sync.{Sent, fresh, create_url, create_repair_request, create_posts}

module _ {W : Type 0} (k : K8s) (std : Std) (env : Env W Repair) where
  updates-get_scheduled_repairs :
      (c : Client) (type name : String) (s : Run W Repair)
      → updates (get_scheduled_repairs std env c type name s).1.calls ≡ updates s.calls
  unfolding get_scheduled_repairs
  updates-get_scheduled_repairs c type name s = ground arith

  status_updates-get_scheduled_repairs :
      (c : Client) (type name : String) (s : Run W Repair)
      → status_updates (get_scheduled_repairs std env c type name s).1.calls
        ≡ status_updates s.calls
  unfolding get_scheduled_repairs
  status_updates-get_scheduled_repairs c type name s = ground arith

  sync_unsynced :
      (key : Key) (r : Repair) (c : Client) (s : Run W Repair)
      → r.status.synced_repair_id ≡ ""
      → sync k std env key r c s ≡ create k std env key r c s
  unfolding sync
  sync_unsynced key r c s h = ground (arith, eq_iff r.status.synced_repair_id "")

  create_lost :
      (key : Key) (r : Repair) (c : Client) (s s' : Run W Repair) (resp : Response) (e : Error)
      → create_scheduled_repair std env c r.spec.cluster_type r.spec.cluster_name
          (build_repair_params r)
          s
        ≡ (ok resp, s')
      → (get_scheduled_repairs std env c r.spec.cluster_type r.spec.cluster_name s').0 ≡ err e
      → ((create k std env key r c s).0 ≡ requeue 10)
        × (updates (create k std env key r c s).1.calls ≡ updates s'.calls)
        × (status_updates (create k std env key r c s).1.calls ≡ status_updates s'.calls)
  unfolding create
  create_lost key r c s s' resp e made lost = ground (
    arith,
    updates-get_scheduled_repairs c r.spec.cluster_type r.spec.cluster_name s',
    status_updates-get_scheduled_repairs c r.spec.cluster_type r.spec.cluster_name s',
  )

  -- A repair with no id yet: when the API has created it and the list that would tell its id cannot
  -- be read, a retry after ten seconds is asked for and nothing is written, so that the object still
  -- has no id; and every sync of the object as it is, whatever the world, sends the creation again.
  pub create_lost-repeats :
      (key : Key) (r : Repair) (c : Client) (s s' : Run W Repair) (resp : Response) (e : Error)
      {u : Url}
      → r.status.synced_repair_id ≡ ""
      → std.parse_url (create_url c r) ≡ ok u
      → create_scheduled_repair std env c r.spec.cluster_type r.spec.cluster_name
          (build_repair_params r)
          s
        ≡ (ok resp, s')
      → (get_scheduled_repairs std env c r.spec.cluster_type r.spec.cluster_name s').0 ≡ err e
      → ((sync k std env key r c s).0 ≡ requeue 10)
        × (updates (sync k std env key r c s).1.calls ≡ updates s'.calls)
        × (status_updates (sync k std env key r c s).1.calls ≡ status_updates s'.calls)
        × ((w : W)
            → Sent
                (create_repair_request c r)
                (requests (sync k std env key r c (fresh w)).1.calls))
  create_lost-repeats key r c s s' resp e unsynced url made lost =
      let (outcome, same, same_status) = create_lost key r c s s' resp e made lost in
      (
        rw (sync_unsynced key r c s unsynced) outcome,
        rw (sync_unsynced key r c s unsynced) same,
        rw (sync_unsynced key r c s unsynced) same_status,
        λ w.
            rw (sync_unsynced key r c (fresh w) unsynced)
              (create_posts k std env key r c (fresh w) url),
      )

  is_synced-no_id : (r : Repair) → r.status.synced_repair_id ≡ "" → is_synced k r ≡ false
  unfolding is_synced
  is_synced-no_id r h = ground (arith, eq_iff r.status.synced_repair_id "")

  create_unlisted :
      (key : Key) (r t : Repair) (c : Client) (s s' s'' : Run W Repair) (resp : Response)
      (es : List ScheduledRepairEntry)
      → create_scheduled_repair std env c r.spec.cluster_type r.spec.cluster_name
          (build_repair_params r)
          s
        ≡ (ok resp, s')
      → get_scheduled_repairs std env c r.spec.cluster_type r.spec.cluster_name s' ≡ (ok es, s'')
      → (env.get key s''.world).0 ≡ ok t
      → status_updates (create k std env key r c s).1.calls
        ≡ synced_repair k
            (find_repair_id_by_tag es r.spec.tag)
            r.metadata.generation
            (env.now (env.get key s''.world).1).0
            t
          ∷ status_updates s''.calls
  unfolding create finish
  create_unlisted key r t c s s' s'' resp es made got found = ground (arith, made, got, found)

  -- When the API has created a repair but does not list its tag yet, the status that is written has
  -- no id: the object does not count as synced, and every sync of it as it was written, whatever the
  -- world, sends the creation again.
  pub create_unlisted-repeats :
      (key : Key) (r t : Repair) (c : Client) (s s' s'' : Run W Repair) (resp : Response)
      (es : List ScheduledRepairEntry) {u : Url}
      → create_scheduled_repair std env c r.spec.cluster_type r.spec.cluster_name
          (build_repair_params r)
          s
        ≡ (ok resp, s')
      → get_scheduled_repairs std env c r.spec.cluster_type r.spec.cluster_name s' ≡ (ok es, s'')
      → find_repair_id_by_tag es r.spec.tag ≡ ""
      → (env.get key s''.world).0 ≡ ok t
      → std.parse_url (create_url c t) ≡ ok u
      → (o : Repair) × (status_updates (create k std env key r c s).1.calls
          ≡ o ∷ status_updates s''.calls)
        × (o.spec ≡ t.spec)
        × (is_synced k o ≡ false)
        × ((w : W)
            → Sent
                (create_repair_request c o)
                (requests (sync k std env key o c (fresh w)).1.calls))
  unfolding synced_repair
  create_unlisted-repeats key r t c s s' s'' resp es made got none_listed found url =
      let time = (env.now (env.get key s''.world).1).0 in
      let o = synced_repair k "" r.metadata.generation time t in
      (
        o,
        rw (sym none_listed) (create_unlisted key r t c s s' s'' resp es made got found),
        refl,
        is_synced-no_id o refl,
        λ w.
            rw (sync_unsynced key o c (fresh w) refl)
              (create_posts k std env key o c (fresh w) url),
      )
