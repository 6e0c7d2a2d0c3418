-- ===== src/Healthcheck/Accepted.antt =====
-- What a sync of a healthcheck leaves when the API accepts its update.
use axonops_operator.Prelude.{
  ℕ, String, ◌≡◌, ◌≢◌, ◌∙◌, sym, inl, inr, true, false, some, List, ◌∷◌, nat_eq, arith,
}
use axonops_operator.Errors.{Result, ok}
use axonops_operator.K8s
use axonops_operator.K8s.{Key, K8s, done}
use axonops_operator.Http.{Response, Url, Std, Env, Run}
use axonops_operator.Http.Trace.{requests, status_updates}
use axonops_operator.Client.{Client}
use axonops_operator.Client.Healthcheck.{update_healthchecks}
use axonops_operator.Client.Healthcheck.Records.{Healthchecks}
use axonops_operator.Healthcheck.{
  Healthcheck, Kind, IsLawful, healthcheck_exists, synced_healthcheck, is_healthcheck_synced,
}
use axonops_operator.Healthcheck.Steps.{get_all, entries_of, finish, put_all, apply, sync}
use axonops_operator.Healthcheck.Sync.{
  all_url, put_request, appended_entry, PlacesAs, PlacesAs-Places, put_entry-put_all,
  requests-put_all,
}
use axonops_operator.Healthcheck.Records.{
  overwritten-given, exists-placed, id-ne-nil, is_healthcheck_synced-recorded,
}

module _ {W S E : Type 0} (K : Kind S E) (k : K8s) (std : Std) (env : Env W (Healthcheck S))
    (lawful : IsLawful K) (key : Key) (h : Healthcheck S) (client : Client) where
  PlacesAs-appended :
      (fresh : String) (es es' : List E) (id : String)
      → healthcheck_exists K.id_of es "" ≡ false
      → PlacesAs K h fresh es es' id
      → id ≡ K.id_of (appended_entry K h fresh)
  PlacesAs-appended fresh es es' id ids (inl (o, same)) =
      ground (arith, overwritten-given K lawful h fresh es es' ids o)
  PlacesAs-appended fresh es es' id ids (inr (absent, result, same)) = same

  -- The bulk update.
  abbrev put :
      Healthchecks → List E → Run W (Healthcheck S) → Result Response × Run W (Healthcheck S)
  put all es =
      update_healthchecks std env client (K.cluster_type h.spec) (K.cluster_name h.spec)
        (K.with_checks (some es) all)

  status_updates-put :
      (all : Healthchecks) (es : List E) (s : Run W (Healthcheck S))
      → status_updates (put all es s).1.calls ≡ status_updates s.calls
  unfolding update_healthchecks
  status_updates-put all es s = ground arith

  status_updates-finish :
      (n : ℕ) (id : String) (s : Run W (Healthcheck S)) (h' : Healthcheck S)
      → (env.get key s.world).0 ≡ ok h'
      → status_updates (finish K k std env key n id s).1.calls
        ≡ synced_healthcheck k id n (env.now (env.get key s.world).1).0 h' ∷ status_updates s.calls
  unfolding finish
  status_updates-finish n id s h' found = ground arith

  status_updates-put_all :
      (all : Healthchecks) (es : List E) (id : String) (s : Run W (Healthcheck S))
      (h' : Healthcheck S) (answer : Response)
      → (put all es s).0 ≡ ok answer
      → ((w : W) → (env.get key w).0 ≡ ok h')
      → (time : ℕ) × (status_updates (put_all K k std env key h client all es id s).1.calls
          ≡ synced_healthcheck k id h.metadata.generation time h' ∷ status_updates s.calls)
  unfolding put_all
  status_updates-put_all all es id s h' answer accepted found =
      let t = (put all es s).1 in
      (
        (env.now (env.get key t.world).1).0,
        ground (
          arith,
          accepted,
          status_updates-put all es s,
          status_updates-finish h.metadata.generation id t h' (found t.world),
        ),
      )

  -- When the sync of a healthcheck that does not count as synced has read healthchecks that, in the
  -- list of its kind, all have an id, and the API accepts whatever update comes, at a URL that
  -- parses, the object is still there and a new id would not be empty, the sync sends one update and
  -- writes one status. The update has an entry with the id that the status records, and the object
  -- with that status counts as synced exactly if its generation is the one that the sync started
  -- from.
  pub sync_accepted :
      (s r : Run W (Healthcheck S)) (all : Healthchecks) (h' : Healthcheck S) (answer : Response)
      {u : Url}
      → K8s.IsLawful k
      → is_healthcheck_synced k h ≡ false
      → std.parse_url (all_url K client h) ≡ ok u
      → get_all K k std env h client s ≡ (ok all, r)
      → healthcheck_exists K.id_of (entries_of K all) "" ≡ false
      → (env.new_uuid r.world).0 ≢ ""
      → ((es : List E) (q : Run W (Healthcheck S)) → (put all es q).0 ≡ ok answer)
      → ((w : W) → (env.get key w).0 ≡ ok h')
      → (es : List E) × (id : String) × (time : ℕ) × (requests
            (sync K k std env key h client s).1.calls
          ≡ put_request K client h all es ∷ requests r.calls)
        × (status_updates (sync K k std env key h client s).1.calls
            ≡ synced_healthcheck k id h.metadata.generation time h' ∷ status_updates r.calls)
        × (healthcheck_exists K.id_of es id ≡ true)
        × (is_healthcheck_synced k (synced_healthcheck k id h.metadata.generation time h')
            ≡ nat_eq h.metadata.generation h'.metadata.generation)
  unfolding sync apply
  sync_accepted s r all h' answer L old url got ids new accepted found =
      let fresh = (env.new_uuid r.world).0 in
      let (es, id, t, same, calls, placed) = put_entry-put_all K k std env key h client all r in
      let (time, written) = status_updates-put_all all es id t h' answer (accepted es t) found in
      let known = PlacesAs-appended fresh (entries_of K all) es id ids placed in
      (
        es,
        id,
        time,
        ground (arith, same, calls, requests-put_all K k std env key h client all es id t url),
        ground (arith, same, calls, written),
        ground (
          arith,
          known,
          exists-placed K lawful h fresh (entries_of K all) es ids
              (PlacesAs-Places K h fresh (entries_of K all) es id placed),
        ),
        is_healthcheck_synced-recorded K k std env L h' id h.metadata.generation time
            (λ empty. id-ne-nil K lawful h fresh new (sym known ∙ empty)),
      )
