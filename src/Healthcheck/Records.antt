-- ===== src/Healthcheck/Records.antt =====
-- What the reconcilers of healthchecks record, and what the next reconcile makes of it.
use axonops_operator.Prelude.{
  inl, inr, ℕ, false, List, [], ◌==◌, String, ◌≡◌, ◌≢◌, refl, true, some, ◌∷◌, eq_iff, nat_eq,
  if◌then◌else◌, arith,
}
use axonops_operator.Errors.{Error, ok, err, retryable, safe_condition_msg}
use axonops_operator.K8s.{Key, K8s, done, requeue}
use axonops_operator.Status.{failed_condition, is_ready, failed-ne-ready}
use axonops_operator.Http.{Std, Env, Run}
use axonops_operator.Http.Trace.{status_updates}
use axonops_operator.Client.{Client}
use axonops_operator.Client.Healthcheck.{update_healthchecks}
use axonops_operator.Client.Healthcheck.Records.{Healthchecks}
use axonops_operator.Healthcheck.{
  synced_healthcheck, ready_condition, IsLawful, Healthcheck, Kind, healthcheck_exists,
  replace_entry, failed_healthcheck, is_healthcheck_synced,
}
use axonops_operator.Healthcheck.Lists.{Overwrites, exists-append-cons}
use axonops_operator.Healthcheck.Sync.{Places, appended_entry}
use axonops_operator.Healthcheck.Steps.{get_all, entries_of, put_all, apply, sync}
use axonops_operator.K8s

module _ {S E : Type 0} (K : Kind S E) (lawful : IsLawful K) (h : Healthcheck S)
    (fresh : String) where
  -- An entry that is overwritten has an id, if every entry of the list has.
  pub overwritten-given :
      (es es' : List E)
      → healthcheck_exists K.id_of es "" ≡ false
      → Overwrites K.id_of h.status.synced_healthcheck_id (K.build_healthcheck_entry h) es es'
      → (K.id_of (K.build_healthcheck_entry h) == "") ≡ false
  overwritten-given es es' ids (front, old, back, split, before, found, result) = ground (
    arith,
    exists-append-cons K.id_of h.status.synced_healthcheck_id front back old found,
    lawful.id-build h,
    eq_iff (K.id_of (K.build_healthcheck_entry h)) "",
  )

  -- The list that a sync sends has an entry with the id that it records.
  pub exists-placed :
      (es es' : List E)
      → healthcheck_exists K.id_of es "" ≡ false
      → Places K h fresh es es'
      → healthcheck_exists K.id_of es' (K.id_of (appended_entry K h fresh)) ≡ true
  exists-placed es es' ids (inr (absent, result)) =
      rw result (exists-append-cons K.id_of _ es [] (appended_entry K h fresh) refl)
  exists-placed es es' ids (inl o) =
      let entry = K.build_healthcheck_entry h in
      let (front, old, back, split, before, found, result) = o in
      ground (
        arith,
        overwritten-given es es' ids o,
        exists-append-cons K.id_of (K.id_of entry) front back entry refl,
      )

  pub id-ne-nil : fresh ≢ "" → K.id_of (appended_entry K h fresh) ≢ ""
  id-ne-nil new = ground (
    arith,
    lawful.id-set_id fresh (K.build_healthcheck_entry h),
    eq_iff (K.id_of (K.build_healthcheck_entry h)) "",
  )

module _ {W S E : Type 0} (K : Kind S E) (k : K8s) (std : Std) (env : Env W (Healthcheck S)) where
  -- A synced healthcheck that the API still lists is left alone.
  sync_present :
      (key : Key) (h : Healthcheck S) (client : Client) (s s' : Run W (Healthcheck S))
      (all : Healthchecks)
      → is_healthcheck_synced k h ≡ true
      → get_all K k std env h client s ≡ (ok all, s')
      → healthcheck_exists K.id_of (entries_of K all) h.status.synced_healthcheck_id ≡ true
      → sync K k std env key h client s ≡ (requeue 300, s')
  unfolding sync
  sync_present key h client s s' all old got found = ground arith

  put_failed :
      (key : Key) (h : Healthcheck S) (client : Client) (all : Healthchecks) (es : List E)
      (id : String) (s : Run W (Healthcheck S)) (e : Error)
      → (update_healthchecks std env client
          (K.cluster_type h.spec)
          (K.cluster_name h.spec)
          (K.with_checks (some es) all)
          s).0
        ≡ err e
      → ((put_all K k std env key h client all es id s).0
          ≡ (if retryable e then requeue 30 else done))
        × (status_updates (put_all K k std env key h client all es id s).1.calls
            ≡ failed_healthcheck k h "APIError"
                (safe_condition_msg "Failed to update healthchecks" e)
              ∷ status_updates s.calls)
  unfolding put_all update_healthchecks
  put_failed key h client all es id s e failed = (ground arith, ground arith)

  module _ (L : K8s.IsLawful k) where
    is_healthcheck_synced-failed :
        (h : Healthcheck S) (reason message : String)
        → is_ready (k.find_status_condition h.status.conditions "Ready") ≡ true
        → h.status.synced_healthcheck_id ≢ ""
        → is_healthcheck_synced k (failed_healthcheck k h reason message) ≡ true
    unfolding is_healthcheck_synced failed_healthcheck
    is_healthcheck_synced-failed h reason message r given = ground (
      arith,
      eq_iff h.status.synced_healthcheck_id "",
      L.find-set_ne h.status.conditions (failed_condition h.metadata.generation reason message)
          "Ready" failed-ne-ready,
    )

    -- A healthcheck with the status that a sync records.
    pub is_healthcheck_synced-recorded :
        (h : Healthcheck S) (id : String) (n time : ℕ)
        → id ≢ ""
        → is_healthcheck_synced k (synced_healthcheck k id n time h)
          ≡ nat_eq n h.metadata.generation
    unfolding is_healthcheck_synced synced_healthcheck is_ready
    is_healthcheck_synced-recorded h id n time given = ground (
      arith,
      eq_iff id "",
      L.find-remove_ne (k.set_status_condition h.status.conditions (ready_condition n)) "Failed"
          "Ready" failed-ne-ready,
      L.find-set_self h.status.conditions (ready_condition n),
    )

    -- A healthcheck that was ready and synced before its specification changed: when the bulk update
    -- that would overwrite its entry fails, a retry after 30 seconds is asked for if the error is
    -- retryable, but the status that is written, with the changed specification, makes every later
    -- sync leave the entry as it is, as long as the API lists it.
    pub failed_sync-not_retried :
        (key : Key) (h : Healthcheck S) (client : Client) (s s' t t' : Run W (Healthcheck S))
        (all later : Healthchecks) (es : List E) (e : Error)
        → is_healthcheck_synced k h ≡ false
        → is_ready (k.find_status_condition h.status.conditions "Ready") ≡ true
        → h.status.synced_healthcheck_id ≢ ""
        → get_all K k std env h client s ≡ (ok all, s')
        → replace_entry K.id_of h.status.synced_healthcheck_id
            (K.build_healthcheck_entry h)
            (entries_of K all)
          ≡ some es
        → (update_healthchecks std env client
            (K.cluster_type h.spec)
            (K.cluster_name h.spec)
            (K.with_checks (some es) all)
            s').0
          ≡ err e
        → get_all K k std env h client t ≡ (ok later, t')
        → healthcheck_exists K.id_of (entries_of K later) h.status.synced_healthcheck_id ≡ true
        → ((sync K k std env key h client s).0 ≡ (if retryable e then requeue 30 else done))
          × (o : Healthcheck S) × (status_updates (sync K k std env key h client s).1.calls
              ≡ o ∷ status_updates s'.calls)
          × (o.spec ≡ h.spec)
          × (sync K k std env key o client t ≡ (requeue 300, t'))
    unfolding sync apply
    failed_sync-not_retried key h client s s' t t' all later es e old r given got replaced failed
          got' listed =
        let message = safe_condition_msg "Failed to update healthchecks" e in
        let o = failed_healthcheck k h "APIError" message in
        let id = K.id_of (K.build_healthcheck_entry h) in
        let (outcome, written) = put_failed key h client all es id s' e failed in
        (
          ground (arith, outcome),
          o,
          ground (arith, written),
          unfold failed_healthcheck in refl,
          sync_present key o client t t' later
              (is_healthcheck_synced-failed h "APIError" message r given)
              (unfold failed_healthcheck in got') (unfold failed_healthcheck in listed),
        )
