-- ===== src/Kafka/Acl/Sync.antt =====
-- Which entry an ACL resource creates and deletes.
use axonops_operator.Prelude.{◌≡◌, some, [], ◌∷◌, ◌++◌, ◌&&◌, if◌then◌else◌, arith}
use axonops_operator.Errors.{ok}
use axonops_operator.K8s.{Key, K8s}
use axonops_operator.Http.{Std, Url, Env, Run}
use axonops_operator.Http.Trace.{requests}
use axonops_operator.Client.{Client, request}
use axonops_operator.Client.Kafka.{acls_url, acl_json, create_kafka_acl, delete_kafka_acl}
use axonops_operator.Connection.{resolve_api_client}
use axonops_operator.Connection.Laws.{calls-resolve_api_client}
use axonops_operator.Kafka.Acl.{Acl, acl_finalizer, build_acl_payload, is_up_to_date}
use axonops_operator.Kafka.Acl.Steps.{sync, handle_deletion}

module _ {W : Type 0} (k : K8s) (std : Std) (env : Env W Acl) where
  -- What the API is asked for an ACL, whatever the state of the object. A sync posts its entry,
  -- unless it is up to date, and a deletion whose connection resolves asks for the DELETE of the
  -- same URL with the same entry in the body, when the finalizer is there and the ACL was synced.
  -- Nothing else is asked.
  pub requests-create_delete :
      (key : Key) (a : Acl) (c : Client) (s r r' : Run W Acl) {u : Url}
      → std.parse_url (acls_url c a.spec.cluster_name) ≡ ok u
      → resolve_api_client std env a.metadata.namespace a.spec.connection_ref r ≡ (ok c, r')
      → (requests (sync k std env key a c s).1.calls
          ≡ (if is_up_to_date k a
              then []
              else request c "POST"
                  (acls_url c a.spec.cluster_name)
                  (some (acl_json (build_acl_payload a)))
                ∷ [])
            ++ requests s.calls)
        × (requests (handle_deletion k std env a r).1.calls
            ≡ (if k.contains_finalizer a.metadata.finalizers acl_finalizer && a.status.synced
                then request c "DELETE"
                    (acls_url c a.spec.cluster_name)
                    (some (acl_json (build_acl_payload a)))
                  ∷ []
                else [])
              ++ requests r.calls)
  unfolding sync handle_deletion create_kafka_acl delete_kafka_acl
  requests-create_delete key a c s r r' url res = (
    ground arith,
    ground (arith, calls-resolve_api_client std env a.metadata.namespace a.spec.connection_ref r),
  )
