-- ===== src/Collector/Sync.antt =====
-- What the reconciler of log collectors sends.
use axonops_operator.Prelude.{
  ℕ, String, ◌≡◌, sym, true, some, List, [], ◌∷◌, ◌++◌, length, nat_eq, if◌then◌else◌, arith,
}
use axonops_operator.Errors.{Error, ok}
use axonops_operator.K8s.{Key, K8s}
use axonops_operator.Http.{Request, Url, Std, Env, Run}
use axonops_operator.Http.Trace.{requests}
use axonops_operator.Client.{Client, form_request}
use axonops_operator.Client.Collector.{
  LogCollector, collectors_json, collectors_url, get_log_collectors, put_log_collectors,
}
use axonops_operator.Connection.{resolve_api_client}
use axonops_operator.Collector.{
  Collector, collector_finalizer, collector_entry, merge, filtered, appended,
}
use axonops_operator.Collector.Merge.{
  named_in, last_uuid, filtered-merge, named_in-merge, id-merge, length-filtered-named_in,
}
use axonops_operator.Collector.Steps.{
  finish, fail_with, write, put_merged, put_filtered, handle_deletion,
}

abbrev pub list_url : Client → Collector → String
list_url client c = collectors_url client c.spec.cluster_type c.spec.cluster_name

abbrev pub put_request : Client → Collector → List LogCollector → Request
put_request client c ls =
    form_request client "PUT" (list_url client c) "addlogs" (collectors_json (appended ls))

module _ {W : Type 0} (k : K8s) (std : Std) (env : Env W Collector) where
  requests-finish :
      (key : Key) (n : ℕ) (id : String) (s : Run W Collector)
      → requests (finish k std env key n id s).1.calls ≡ requests s.calls
  unfolding finish
  requests-finish key n id s = ground arith

  requests-fail_with :
      (c : Collector) (reason prefix : String) (e : Error) (s : Run W Collector)
      → requests (fail_with k std env c reason prefix e s).1.calls ≡ requests s.calls
  unfolding fail_with
  requests-fail_with c reason prefix e s = ground arith

  requests-put_merged :
      (key : Key) (c : Collector) (client : Client) (es : List LogCollector) (s : Run W Collector)
      {u : Url}
      → std.parse_url (list_url client c) ≡ ok u
      → requests (put_merged k std env key c client es s).1.calls
        ≡ form_request client "PUT"
            (list_url client c)
            "addlogs"
            (collectors_json (some (merge c (env.new_uuid s.world).0 es).0))
          ∷ requests s.calls
  unfolding put_merged put_log_collectors
  requests-put_merged key c client es s url = grind (arith, requests-finish, requests-fail_with)

  -- Once the list has been read, a sync writes one list, in which the collectors of other files
  -- stand as they were read, in their order, and the resource's file has the resource's entry
  -- alone. The entry keeps the id of the last collector that the file had, if it had one.
  pub write_merges :
      (key : Key) (c : Collector) (client : Client) (s s' : Run W Collector)
      (es : List LogCollector) {u : Url}
      → std.parse_url (list_url client c) ≡ ok u
      → get_log_collectors std env client c.spec.cluster_type c.spec.cluster_name s ≡ (ok es, s')
      → (ls : List LogCollector) × (requests (write k std env key c client s).1.calls
          ≡ form_request client "PUT" (list_url client c) "addlogs" (collectors_json (some ls))
            ∷ requests s'.calls)
        × (filtered c.spec.filename ls ≡ filtered c.spec.filename es)
        × (named_in c.spec.filename ls
            ≡ collector_entry c (last_uuid (named_in c.spec.filename es) (env.new_uuid s'.world).0)
              ∷ [])
  unfolding write
  write_merges key c client s s' es url got =
      let fresh = (env.new_uuid s'.world).0 in
      (
        (merge c fresh es).0,
        ground (arith, requests-put_merged key c client es s' url),
        filtered-merge c fresh es,
        rw (sym (id-merge c fresh es)) (named_in-merge c fresh es),
      )

  requests-put_filtered :
      (c : Collector) (client : Client) (es : List LogCollector) (s : Run W Collector) {u : Url}
      → std.parse_url (list_url client c) ≡ ok u
      → requests (put_filtered k std env c client es s).1.calls
        ≡ (if nat_eq (length (named_in c.spec.filename es)) 0
            then []
            else put_request client c (filtered c.spec.filename es) ∷ [])
          ++ requests s.calls
  unfolding put_filtered put_log_collectors
  requests-put_filtered c client es s url =
      ground (arith, length-filtered-named_in c.spec.filename es)

  -- Once the list has been read, a deletion writes the list of the other files' collectors, as they
  -- were read, if the resource's file has any collector, and else sends nothing.
  pub handle_deletion_filters :
      (c : Collector) (client : Client) (s r r' : Run W Collector) (es : List LogCollector)
      {u : Url}
      → k.contains_finalizer c.metadata.finalizers collector_finalizer ≡ true
      → resolve_api_client std env c.metadata.namespace c.spec.connection_ref s ≡ (ok client, r)
      → std.parse_url (list_url client c) ≡ ok u
      → get_log_collectors std env client c.spec.cluster_type c.spec.cluster_name r ≡ (ok es, r')
      → requests (handle_deletion k std env c s).1.calls
        ≡ (if nat_eq (length (named_in c.spec.filename es)) 0
            then []
            else put_request client c (filtered c.spec.filename es) ∷ [])
          ++ requests r'.calls
  unfolding handle_deletion
  handle_deletion_filters c client s r r' es fin res url got =
      ground (arith, requests-put_filtered c client es r' url)
