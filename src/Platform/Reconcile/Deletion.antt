-- ===== src/Platform/Reconcile/Deletion.antt =====
-- What becomes of a platform that is deleted.
use axonops_operator.Prelude.{
  String, ◌≡◌, ◌⊎◌, inl, inr, refl, true, Option, none, some, List, [], ◌∷◌, arith,
}
use axonops_operator.Errors.{Error, Result, ok, err}
use axonops_operator.K8s.{K8s}
use axonops_operator.Http.{Run}
use axonops_operator.Http.Trace.{updates}
use axonops_operator.Platform.Types.{
  Platform, AxonBaseComponent, named, component_timeseries, component_search,
}
use axonops_operator.Platform.Cluster.{
  Cluster, Tools, Write, update_platform, applied, deleted, platform_written, status_written,
}
use axonops_operator.Platform.Cleanup.{
  delete_secret, cleanup_tls_secrets, cleanup_credentials, cleanup_credential_secrets_on_delete,
}
use axonops_operator.Platform.Secrets.{should_retain_credentials}
use axonops_operator.Platform.Secrets.Retention.{updates-should_retain}
use axonops_operator.Platform.Reconcile.{reconcile_deletion, with_finalizers, platform_finalizer}

-- The resources that were written with their metadata.
unfoldable pub platform_writes : List Write → List Platform
platform_writes [] = []
platform_writes (applied kind key ∷ ws) = platform_writes ws
platform_writes (deleted kind key ∷ ws) = platform_writes ws
platform_writes (platform_written p ∷ ws) = p ∷ platform_writes ws
platform_writes (status_written p ∷ ws) = platform_writes ws

module _ {W : Type 0} (k : K8s) (t : Tools) (c : Cluster W) where
  writes-delete_secret :
      (what : String) (p : Platform) (name : String) (s : Run W Write)
      → platform_writes (updates (delete_secret k c what p name s).1.calls)
        ≡ platform_writes (updates s.calls)
  unfolding delete_secret platform_writes
  writes-delete_secret what p name s = ground arith

  writes-cleanup_tls_secrets :
      (p : Platform) (s : Run W Write)
      → platform_writes (updates (cleanup_tls_secrets k c p s).1.calls)
        ≡ platform_writes (updates s.calls)
  unfolding cleanup_tls_secrets
  writes-cleanup_tls_secrets p s = ground (
    arith,
    writes-delete_secret "TLS secret" p (named p component_timeseries "-tls") s,
    writes-delete_secret "TLS secret" p (named p component_search "-tls")
        (delete_secret k c "TLS secret" p (named p component_timeseries "-tls") s).1,
  )

  writes-cleanup_credentials :
      (p : Platform) (component : String) (b : Option AxonBaseComponent) (s : Run W Write)
      → platform_writes (updates (cleanup_credentials k t c p component b s).1.calls)
        ≡ platform_writes (updates s.calls)
  unfolding cleanup_credentials
  writes-cleanup_credentials p component none s = refl
  writes-cleanup_credentials p component (some b) s =
      let s' = (should_retain_credentials k t c b.storage_config s).1 in
      ground (
        arith,
        updates-should_retain k t c b.storage_config s,
        writes-delete_secret "secret" p (named p component "-auth") s',
        writes-delete_secret "secret" p (named p component "-keystore-password")
            (delete_secret k c "secret" p (named p component "-auth") s').1,
      )

  writes-cleanup_credential_secrets :
      (p : Platform) (s : Run W Write)
      → platform_writes (updates (cleanup_credential_secrets_on_delete k t c p s).1.calls)
        ≡ platform_writes (updates s.calls)
  unfolding cleanup_credential_secrets_on_delete
  writes-cleanup_credential_secrets p s = ground (
    arith,
    writes-cleanup_credentials p component_timeseries p.spec.time_series s,
    writes-cleanup_credentials p component_search p.spec.search
        (cleanup_credentials k t c p component_timeseries p.spec.time_series s).1,
  )

  -- The finalizer is kept with an error, or the platform is written once, without it, after both
  -- clean-ups.
  abbrev pub Released : Platform → Run W Write → Type 0
  Released p s =
      ((e : Error) × ((reconcile_deletion k t c p s).0 ≡ err e)
        × (platform_writes (updates (reconcile_deletion k t c p s).1.calls)
            ≡ platform_writes (updates s.calls)))
      ⊎ (((cleanup_tls_secrets k c p s).0 ≡ ok tt)
          × ((cleanup_credential_secrets_on_delete k t c p (cleanup_tls_secrets k c p s).1).0
              ≡ ok tt)
          × (platform_writes (updates (reconcile_deletion k t c p s).1.calls)
              ≡ with_finalizers (k.remove_finalizer p.metadata.finalizers platform_finalizer) p
                ∷ platform_writes (updates s.calls)))

  -- A platform with its finalizer that is deleted either keeps it, the error of the clean-up that
  -- failed being that of the reconcile, or is written exactly once, without it, after the clean-ups
  -- of the certificates and of the credentials both succeeded.
  pub reconcile_deletion_cases :
      (p : Platform) (s : Run W Write)
      → k.contains_finalizer p.metadata.finalizers platform_finalizer ≡ true
      → Released p s
  unfolding reconcile_deletion platform_writes update_platform
  reconcile_deletion_cases p s h = tls (cleanup_tls_secrets k c p s).0 refl
    where
      first :
          platform_writes (updates (cleanup_tls_secrets k c p s).1.calls)
          ≡ platform_writes (updates s.calls)
      first = writes-cleanup_tls_secrets p s

      second :
          platform_writes (
            updates
              (cleanup_credential_secrets_on_delete k t c p
                (cleanup_tls_secrets k c p s).1).1.calls)
          ≡ platform_writes (updates (cleanup_tls_secrets k c p s).1.calls)
      second = writes-cleanup_credential_secrets p (cleanup_tls_secrets k c p s).1

      credentials_step :
          (r : Result (Unit {0}))
          → (cleanup_tls_secrets k c p s).0 ≡ ok tt
          → (cleanup_credential_secrets_on_delete k t c p (cleanup_tls_secrets k c p s).1).0 ≡ r
          → Released p s
      credentials_step (err x) e e' = inl (x, ground arith, ground (arith, first, second))
      credentials_step (ok u) e e' = inr (e, e', ground (arith, first, second))

      tls : (r : Result (Unit {0})) → (cleanup_tls_secrets k c p s).0 ≡ r → Released p s
      tls (err x) e = inl (x, ground arith, ground (arith, first))
      tls (ok u) e =
          credentials_step
            (cleanup_credential_secrets_on_delete k t c p (cleanup_tls_secrets k c p s).1).0 e refl
