-- ===== src/Healthcheck/Sync.antt =====
-- What the reconcilers of healthchecks send.
use axonops_operator.Prelude.{
  ℕ, String, ◌≡◌, refl, ◌⊎◌, inl, inr, Bool, true, false, some, List, [], ◌∷◌, ◌++◌, ◌==◌,
  Bool-cases, if◌then◌else◌, arith,
}
use axonops_operator.Errors.{Error, Result, ok, err, retryable}
use axonops_operator.K8s.{Key, K8s, Outcome, requeue}
use axonops_operator.Http.{Request, Response, Url, Std, Env, Run}
use axonops_operator.Http.Trace.{requests, updates}
use axonops_operator.Client.{Client, request}
use axonops_operator.Client.Healthcheck.{healthchecks_url, update_healthchecks}
use axonops_operator.Client.Healthcheck.Records.{Healthchecks, healthchecks_json}
use axonops_operator.Connection.{resolve_api_client}
use axonops_operator.Healthcheck.{
  Healthcheck, Kind, is_healthcheck_synced, healthcheck_exists, without_entry, with_finalizers,
}
use axonops_operator.Healthcheck.Lists.{
  Overwrites, replace_entry-cases, having, having-without_entry,
}
use axonops_operator.Healthcheck.Steps.{
  get_all, entries_of, finish, fail_with, put_all, put_entry, apply, put_without, handle_deletion,
  sync,
}

module _ {S E : Type 0} (K : Kind S E) where
  abbrev pub all_url : Client → Healthcheck S → String
  all_url client h = healthchecks_url client (K.cluster_type h.spec) (K.cluster_name h.spec)

  -- The bulk update in which the list of the kind is the given one.
  abbrev pub put_request : Client → Healthcheck S → Healthchecks → List E → Request
  put_request client h all es =
      request client "PUT" (all_url client h)
        (some (healthchecks_json (K.with_checks (some es) all)))

  -- The entry that is appended: with a new id if the resource has none.
  abbrev pub appended_entry : Healthcheck S → String → E
  appended_entry h fresh =
      let entry = K.build_healthcheck_entry h in
      if K.id_of entry == "" then K.set_id fresh entry else entry

  -- What a sync makes of the list of its kind.
  abbrev pub Places : Healthcheck S → String → List E → List E → Type 0
  Places h fresh es es' =
      let id = h.status.synced_healthcheck_id in
      Overwrites K.id_of id (K.build_healthcheck_entry h) es es'
      ⊎ ((healthcheck_exists K.id_of es id ≡ false) × (es' ≡ es ++ (appended_entry h fresh ∷ [])))

  -- The same, with the id that is recorded after it.
  abbrev pub PlacesAs : Healthcheck S → String → List E → List E → String → Type 0
  PlacesAs h fresh es es' id =
      let old = h.status.synced_healthcheck_id in
      let entry = K.build_healthcheck_entry h in
      (Overwrites K.id_of old entry es es' × (id ≡ K.id_of entry))
      ⊎ ((healthcheck_exists K.id_of es old ≡ false)
          × (es' ≡ es ++ (appended_entry h fresh ∷ []))
          × (id ≡ K.id_of (appended_entry h fresh)))

  pub PlacesAs-Places :
      (h : Healthcheck S) (fresh : String) (es es' : List E) (id : String)
      → PlacesAs h fresh es es' id
      → Places h fresh es es'
  PlacesAs-Places h fresh es es' id (inl (o, same)) = inl o
  PlacesAs-Places h fresh es es' id (inr (absent, result, same)) = inr (absent, result)

  -- What a deletion leaves of the list of its kind.
  abbrev pub left : Healthcheck S → Healthchecks → List E
  left h all = without_entry K.id_of h.status.synced_healthcheck_id (entries_of K all)

module _ {W S E : Type 0} (K : Kind S E) (k : K8s) (std : Std) (env : Env W (Healthcheck S)) where
  requests-finish :
      (key : Key) (n : ℕ) (id : String) (s : Run W (Healthcheck S))
      → requests (finish K k std env key n id s).1.calls ≡ requests s.calls
  unfolding finish
  requests-finish key n id s = ground arith

  requests-fail_with :
      (h : Healthcheck S) (reason prefix : String) (e : Error) (o : Outcome)
      (s : Run W (Healthcheck S))
      → requests (fail_with K k std env h reason prefix e o s).1.calls ≡ requests s.calls
  unfolding fail_with
  requests-fail_with h reason prefix e o s = ground arith

  pub requests-put_all :
      (key : Key) (h : Healthcheck S) (client : Client) (all : Healthchecks) (es : List E)
      (id : String) (s : Run W (Healthcheck S)) {u : Url}
      → std.parse_url (all_url K client h) ≡ ok u
      → requests (put_all K k std env key h client all es id s).1.calls
        ≡ put_request K client h all es ∷ requests s.calls
  unfolding put_all update_healthchecks
  requests-put_all key h client all es id s url = grind (arith, requests-finish, requests-fail_with)

  -- Placing the entry is one bulk update, after which an id is recorded: that of the entry.
  pub put_entry-put_all :
      (key : Key) (h : Healthcheck S) (client : Client) (all : Healthchecks)
      (s : Run W (Healthcheck S))
      → (es : List E) × (id : String) × (t : Run W (Healthcheck S)) × (put_entry K k std env key h
            client all s
          ≡ put_all K k std env key h client all es id t)
        × (t.calls ≡ s.calls)
        × PlacesAs K h (env.new_uuid s.world).0 (entries_of K all) es id
  unfolding put_entry
  put_entry-put_all key h client all s =
      let entry = K.build_healthcheck_entry h in
      let entries = entries_of K all in
      elim (replace_entry-cases K.id_of h.status.synced_healthcheck_id entry entries) [
        | inl (es, replaced, o) ↦ (es, K.id_of entry, s, ground arith, refl, inl (o, refl))
        | inr (nowhere, absent) ↦ elim (Bool-cases (K.id_of entry == "")) [
          | inl new ↦
              let given = K.set_id (env.new_uuid s.world).0 entry in
              (
                entries ++ (given ∷ []),
                K.id_of given,
                record s { world = (env.new_uuid s.world).1 },
                ground arith,
                refl,
                inr (absent, ground arith, ground arith),
              )
          | inr old ↦ (
            entries ++ (entry ∷ []),
            K.id_of entry,
            s,
            ground arith,
            refl,
            inr (absent, ground arith, ground arith),
          )
        ]
      ]

  -- When a healthcheck that does not count as synced has read the healthchecks of its cluster, and
  -- their URL parses, it sends them back in one bulk update, in which the other kinds are as they were read. In the list
  -- of its kind the first entry of its id is overwritten by the entry that its specification gives,
  -- or that entry is appended if the list has none of its id, under a new id if it has no id.
  pub sync-Places :
      (key : Key) (h : Healthcheck S) (client : Client) (s s' : Run W (Healthcheck S))
      (all : Healthchecks) {u : Url}
      → is_healthcheck_synced k h ≡ false
      → std.parse_url (all_url K client h) ≡ ok u
      → get_all K k std env h client s ≡ (ok all, s')
      → (es : List E) × (requests (sync K k std env key h client s).1.calls
          ≡ put_request K client h all es ∷ requests s'.calls)
        × Places K h (env.new_uuid s'.world).0 (entries_of K all) es
  unfolding sync apply
  sync-Places key h client s s' all old url got =
      let (es, id, t, same, calls, placed) = put_entry-put_all key h client all s' in
      (
        es,
        ground (arith, same, calls, requests-put_all key h client all es id t url),
        PlacesAs-Places K h (env.new_uuid s'.world).0 (entries_of K all) es id placed,
      )

  abbrev pub released : Healthcheck S → Healthcheck S
  released h = with_finalizers (k.remove_finalizer h.metadata.finalizers K.finalizer) h

  -- Whether an answer to the bulk update of a deletion makes it be tried again.
  abbrev pub asks_retry : Result Response → Bool
  asks_retry (ok _) = false
  asks_retry (err e) = retryable e

  put_without_leaves :
      (h : Healthcheck S) (client : Client) (all : Healthchecks) (s : Run W (Healthcheck S))
      (answer : Result Response) {u : Url}
      → std.parse_url (all_url K client h) ≡ ok u
      → (update_healthchecks std env client
          (K.cluster_type h.spec)
          (K.cluster_name h.spec)
          (K.with_checks (some (left K h all)) all)
          s).0
        ≡ answer
      → (requests (put_without K k std env h client all s).1.calls
          ≡ put_request K client h all (left K h all) ∷ requests s.calls)
        × (updates (put_without K k std env h client all s).1.calls
            ≡ (if asks_retry answer then [] else released h ∷ []) ++ updates s.calls)
        × ((asks_retry answer ≡ false) ⊎ ((put_without K k std env h client all s).0 ≡ requeue 30))
  unfolding put_without update_healthchecks
  put_without_leaves h client all s (ok a) url answered = (ground arith, ground arith, inl refl)
  put_without_leaves h client all s (err e) url answered =
      (ground arith, ground arith, ground arith)

  -- The deletion of a healthcheck that has its finalizer and an id, once it has the client and has
  -- read the healthchecks, sends them back in one bulk update, if their URL parses: without the
  -- entries of its id, and with the other entries, in order, and the other kinds as they were. If
  -- that fails with a retryable error, the resource is left as it is and a retry is asked for; with
  -- any other answer the resource is written without its finalizer.
  pub handle_deletion_leaves :
      (h : Healthcheck S) (client : Client) (s r r' : Run W (Healthcheck S)) (all : Healthchecks)
      (answer : Result Response) {u : Url}
      → k.contains_finalizer h.metadata.finalizers K.finalizer ≡ true
      → (h.status.synced_healthcheck_id == "") ≡ false
      → resolve_api_client std env h.metadata.namespace (K.connection_ref h.spec) s ≡ (ok client, r)
      → std.parse_url (all_url K client h) ≡ ok u
      → get_all K k std env h client r ≡ (ok all, r')
      → (update_healthchecks std env client
          (K.cluster_type h.spec)
          (K.cluster_name h.spec)
          (K.with_checks (some (left K h all)) all)
          r').0
        ≡ answer
      → (requests (handle_deletion K k std env h s).1.calls
          ≡ put_request K client h all (left K h all) ∷ requests r'.calls)
        × (updates (handle_deletion K k std env h s).1.calls
            ≡ (if asks_retry answer then [] else released h ∷ []) ++ updates r'.calls)
        × ((asks_retry answer ≡ false) ⊎ ((handle_deletion K k std env h s).0 ≡ requeue 30))
        × ((id : String)
            → having K.id_of id (left K h all) ≡ (
                if id == h.status.synced_healthcheck_id
                then []
                else having K.id_of id (entries_of K all)))
  unfolding handle_deletion
  handle_deletion_leaves h client s r r' all answer fin given res url got answered =
      let id = h.status.synced_healthcheck_id in
      let (sent, written, outcome) = put_without_leaves h client all r' answer url answered in
      (
        ground arith,
        ground arith,
        ground (arith, outcome),
        λ other. having-without_entry K.id_of id other (entries_of K all),
      )
