-- ===== src/Silence/Sync.antt =====
-- What the reconciler of silence windows sends and records.
use axonops_operator.Prelude.{
  ℕ, ◌≤◌, String, ◌≡◌, ◌≢◌, refl, true, false, some, none, ◌∷◌, ◌<>◌, eq_iff, arith,
}
use axonops_operator.Errors.{ok, retryable}
use axonops_operator.K8s.{Key, K8s, requeue}
use axonops_operator.Http.{Request, Response, Url, Std, Env, Run}
use axonops_operator.Http.Trace.{requests, updates, status_updates}
use axonops_operator.Client.{Client, path_escape, request}
use axonops_operator.Client.Silence.{
  silence_json, silences_url, create_silence_window, delete_silence_window,
}
use axonops_operator.Silence.{Silence, is_active, silence_payload, synced_silence, is_synced}
use axonops_operator.Silence.Steps.{finish, create, replace, sync}

abbrev pub window_url : Client → Silence → String
window_url client s = silences_url client s.spec.cluster_type s.spec.cluster_name

abbrev pub post_request : Client → Silence → String → Request
post_request client s id =
    request client "POST" (window_url client s) (some (silence_json (silence_payload s id)))

abbrev pub delete_request : Client → Silence → Request
delete_request client s =
    request client "DELETE" (window_url client s <> "/" <> path_escape s.status.synced_silence_id)
      none

module _ {W : Type 0} (k : K8s) (std : Std) (env : Env W Silence) where
  sync-unsynced :
      (key : Key) (s : Silence) (c : Client) (r : Run W Silence)
      → s.status.synced_silence_id ≡ ""
      → sync k std env key s c r ≡ create k std env key s c r
  unfolding sync is_synced replace
  sync-unsynced key s c r h = ground (arith, eq_iff s.status.synced_silence_id "")

  finish-writes :
      (key : Key) (n : ℕ) (id : String) (r : Run W Silence) {t : Silence}
      → (env.get key r.world).0 ≡ ok t
      → (status_updates (finish k std env key n id r).1.calls
          ≡ synced_silence k id n (env.now (env.get key r.world).1).0 t ∷ status_updates r.calls)
        × (requests (finish k std env key n id r).1.calls ≡ requests r.calls)
  unfolding finish
  finish-writes key n id r h = (ground arith, ground arith)

  is_synced-no_id : (s : Silence) → s.status.synced_silence_id ≡ "" → is_synced k s ≡ false
  unfolding is_synced
  is_synced-no_id s h = ground (arith, eq_iff s.status.synced_silence_id "")

  -- An inactive resource that has no window is never at rest: each sync that finds the object sends
  -- nothing and writes the status, with the time of the sync, still without an id, so that it never
  -- counts as synced.
  pub sync_inactive :
      (key : Key) (s : Silence) (c : Client) (r : Run W Silence) {t : Silence}
      → is_active s ≡ false
      → s.status.synced_silence_id ≡ ""
      → (env.get key r.world).0 ≡ ok t
      → (o : Silence) × (status_updates (sync k std env key s c r).1.calls
          ≡ o ∷ status_updates r.calls)
        × (requests (sync k std env key s c r).1.calls ≡ requests r.calls)
        × (o.spec ≡ t.spec)
        × (o.status.last_sync_time ≡ some (env.now (env.get key r.world).1).0)
        × (o.status.synced_silence_id ≡ "")
        × (is_synced k o ≡ false)
  unfolding create
  sync_inactive key s c r {t} off unsynced found =
      let n = s.metadata.generation in
      let time = (env.now (env.get key r.world).1).0 in
      let (written, quiet) = finish-writes key n "" r found in
      (
        synced_silence k "" n time t,
        rw (sync-unsynced key s c r unsynced, off) written,
        rw (sync-unsynced key s c r unsynced, off) quiet,
        unfold synced_silence in refl,
        unfold synced_silence in refl,
        unfold synced_silence in refl,
        is_synced-no_id (synced_silence k "" n time t) (unfold synced_silence in refl),
      )

  created :
      (s : Silence) (c : Client) (id : String) (r : Run W Silence) {u : Url}
      → std.parse_url (window_url c s) ≡ ok u
      → id ≢ ""
      → (requests
            (create_silence_window std env c s.spec.cluster_type s.spec.cluster_name
              (silence_payload s id)
              r).1.calls
          ≡ post_request c s id ∷ requests r.calls)
        × (status_updates
              (create_silence_window std env c s.spec.cluster_type s.spec.cluster_name
                (silence_payload s id)
                r).1.calls
            ≡ status_updates r.calls)
  unfolding create_silence_window silence_payload
  created s c id r url given = (ground (arith, eq_iff id ""), ground (arith, eq_iff id ""))

  -- A window that is created has the id that is recorded: the request carries a new id, and the
  -- status that is written after the API took it has the same id.
  pub sync_new_window :
      (key : Key) (s : Silence) (c : Client) (r r' : Run W Silence) (resp : Response) {t : Silence}
      {u : Url}
      → is_active s ≡ true
      → s.status.synced_silence_id ≡ ""
      → std.parse_url (window_url c s) ≡ ok u
      → (env.new_uuid r.world).0 ≢ ""
      → create_silence_window std env c s.spec.cluster_type s.spec.cluster_name
          (silence_payload s (env.new_uuid r.world).0)
          (record r { world = (env.new_uuid r.world).1 })
        ≡ (ok resp, r')
      → (env.get key r'.world).0 ≡ ok t
      → (o : Silence) × (requests (sync k std env key s c r).1.calls
          ≡ post_request c s o.status.synced_silence_id ∷ requests r.calls)
        × (status_updates (sync k std env key s c r).1.calls ≡ o ∷ status_updates r.calls)
        × (o.status.synced_silence_id ≢ "")
        × (o.spec ≡ t.spec)
  unfolding create
  sync_new_window key s c r r' resp {t} on unsynced url given made found =
      let n = s.metadata.generation in
      let id = (env.new_uuid r.world).0 in
      let time = (env.now (env.get key r'.world).1).0 in
      let (written, quiet) = finish-writes key n id r' found in
      let (posted, silent) =
        created s c id (record r { world = (env.new_uuid r.world).1 }) url given in
      (
        synced_silence k id n time t,
        unfold synced_silence in
            rw (sync-unsynced key s c r unsynced) (ground (arith, on, made, quiet, posted)),
        rw (sync-unsynced key s c r unsynced) (ground (arith, on, made, written, silent)),
        unfold synced_silence in given,
        unfold synced_silence in refl,
      )

  -- No second window is created while the old one cannot be deleted: when the API answers the
  -- deletion with a server error, a changed resource is retried after 30 seconds, with the deletion
  -- as the one request and nothing written.
  pub replace_server_error :
      (key : Key) (s : Silence) (c : Client) (r : Run W Silence) (resp : Response) {u : Url}
      → s.status.synced_silence_id ≢ ""
      → std.parse_url (window_url c s <> "/" <> path_escape s.status.synced_silence_id) ≡ ok u
      → (env.send (delete_request c s) r.world).0 ≡ ok resp
      → 500 ≤ resp.status_code
      → ((replace k std env key s c r).0 ≡ requeue 30)
        × (requests (replace k std env key s c r).1.calls ≡ delete_request c s ∷ requests r.calls)
        × (status_updates (replace k std env key s c r).1.calls ≡ status_updates r.calls)
        × (updates (replace k std env key s c r).1.calls ≡ updates r.calls)
  unfolding replace delete_silence_window retryable
  replace_server_error key s c r resp given url sent bad = (
    ground (arith, eq_iff s.status.synced_silence_id ""),
    ground (arith, eq_iff s.status.synced_silence_id ""),
    ground (arith, eq_iff s.status.synced_silence_id ""),
    ground (arith, eq_iff s.status.synced_silence_id ""),
  )
