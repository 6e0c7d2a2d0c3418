-- ===== src/Platform/Secrets/Stable.antt =====
-- The credentials of a database over several reconciles.
use axonops_operator.Prelude.{String, ◌≡◌, inl, inr, Bool, eq_iff, arith, ap, sym, ◌∙◌}
use axonops_operator.Errors.{Result, ok}
use axonops_operator.K8s.{Key, K8s}
use axonops_operator.Http.{Run}
use axonops_operator.Platform.Objects.{Map, Object, SecretContent}
use axonops_operator.Platform.Types.{Platform, AxonAuthentication, StorageConfig, named}
use axonops_operator.Platform.Cluster.{Cluster, Tools, Write, Store}
use axonops_operator.Platform.Secrets.Retention.{retained, should_retain-ok}
use axonops_operator.Platform.Secrets.Origin.{auth_key, origin}
use axonops_operator.Platform.Secrets.{
  managed_secret, digest, write_credentials, store_credentials, credentials, managed_credentials,
  ensure_authentication_secret, should_retain_credentials,
}

-- What the API server promises of a store: reading changes nothing, and what was created or
-- updated is read as the mutation left it.
pub record IsFaithful {W A : Type 0} (st : Store W A) : Type 0 where
  pub get-pure : (k : Key) (w : W) → (st.get k w).1 ≡ w
  pub get-applied :
      (k : Key) (mutate : Object A → Result (Object A)) (w : W)
      → (st.create_or_update k mutate w).0 ≡ ok tt
      → (o o' : Object A) × (mutate o ≡ ok o')
        × ((st.get k (st.create_or_update k mutate w).1).0 ≡ ok o')

abbrev pub no_credentials : AxonAuthentication
no_credentials = record { secret_ref = ""; username = ""; password = "" }

-- Whatever owner the secret gets, it holds the entries that it was given.
managed_secret-entries :
    (t : Tools) (p : Platform) (component : String) (retain : Bool) (m : Map)
    (o o' : Object SecretContent)
    → managed_secret t p component retain m o ≡ ok o'
    → o'.content.entries ≡ m
unfolding managed_secret
managed_secret-entries t p component retain m o o' h = ground arith

module _ {W : Type 0} (k : K8s) (t : Tools) (c : Cluster W) (faithful : IsFaithful c.secrets) where
  -- Credentials that are there are used, where the specification has none.
  read_existing :
      (p : Platform) (component : String) (sc : StorageConfig) (s : Run W Write)
      (o : Object SecretContent)
      → (c.secrets.get (auth_key k t c p component) s.world).0 ≡ ok o
      → (managed_credentials k t c p component no_credentials sc s).0
        ≡ ok (named p component "-auth", digest t o.content.entries)
  unfolding managed_credentials auth_key
  read_existing p component sc s o h = ground arith

  abbrev mutation :
      Platform
      → String
      → Bool
      → String
      → String
      → Object SecretContent
      → Result (Object SecretContent)
  mutation p component retain user password =
      managed_secret t p component retain (credentials k t c component user password)

  -- What a write that succeeds answers, and the world after it.
  store_credentials-run :
      (p : Platform) (component : String) (retain : Bool) (user password : String) (s : Run W Write)
      (r : String × String)
      → (store_credentials k t c p component retain user password s).0 ≡ ok r
      → ((c.secrets.create_or_update
            (auth_key k t c p component)
            (mutation p component retain user password)
            s.world).0
          ≡ ok tt)
        × ((store_credentials k t c p component retain user password s).1.world
            ≡ (c.secrets.create_or_update
                (auth_key k t c p component)
                (mutation p component retain user password)
                s.world).1)
        × (r ≡ (named p component "-auth", digest t (credentials k t c component user password)))
  unfolding store_credentials auth_key
  store_credentials-run p component retain user password s r h =
      (ground arith, ground arith, ground arith)

  -- The credentials that were stored are read back, and give the same answer.
  store_credentials-read :
      (p : Platform) (component : String) (retain : Bool) (user password : String)
      (sc : StorageConfig) (s : Run W Write) (r : String × String)
      → (store_credentials k t c p component retain user password s).0 ≡ ok r
      → (managed_credentials k t c p component no_credentials sc
          (store_credentials k t c p component retain user password s).1).0
        ≡ ok r
  store_credentials-read p component retain user password sc s r h =
      let (applied, world, answer) = store_credentials-run p component retain user password s r h in
      let (o, o', made, read) =
        faithful.get-applied (auth_key k t c p component)
          (mutation p component retain user password) s.world applied in
      let entries =
        managed_secret-entries t p component retain (credentials k t c component user password) o o'
          made in
      read_existing p component sc (store_credentials k t c p component retain user password s).1 o'
        (ap (λ w. (c.secrets.get (auth_key k t c p component) w).0) world ∙ read)
      ∙ ap (λ m. ok (named p component "-auth", digest t m)) entries
      ∙ sym (ap ok answer)

  write-store :
      (p : Platform) (component : String) (sc : StorageConfig) (user password : String)
      (s : Run W Write)
      → write_credentials k t c p component sc user password s
        ≡ store_credentials k t c p component
            (retained (should_retain_credentials k t c sc s).0)
            user
            password
            (should_retain_credentials k t c sc s).1
  unfolding write_credentials
  write-store p component sc user password s = ground (arith, should_retain-ok k t c sc s)

  write_credentials-read :
      (p : Platform) (component : String) (sc sc' : StorageConfig) (user password : String)
      (s : Run W Write) (r : String × String)
      → (write_credentials k t c p component sc user password s).0 ≡ ok r
      → (managed_credentials k t c p component no_credentials sc'
          (write_credentials k t c p component sc user password s).1).0
        ≡ ok r
  write_credentials-read p component sc sc' user password s r h =
      let same = write-store p component sc user password s in
      ap (λ q. (managed_credentials k t c p component no_credentials sc' q.1).0) same
      ∙ store_credentials-read p component (retained (should_retain_credentials k t c sc s).0) user
          password sc' (should_retain_credentials k t c sc s).1 r (ap (λ q. q.0) (sym same) ∙ h)

  managed_credentials-stable :
      (p : Platform) (component : String) (auth : AxonAuthentication) (sc sc' : StorageConfig)
      (s : Run W Write) (r : String × String)
      → (managed_credentials k t c p component auth sc s).0 ≡ ok r
      → (managed_credentials k t c p component no_credentials sc'
          (managed_credentials k t c p component auth sc s).1).0
        ≡ ok r
  managed_credentials-stable p component auth sc sc' s r h =
      elim (origin k t c p component auth sc s) [
        | inl (o, there, answer, world) ↦
            read_existing p component sc' (managed_credentials k t c p component auth sc s).1 o (
              ap (λ w. (c.secrets.get (auth_key k t c p component) w).0)
                (world ∙ faithful.get-pure (auth_key k t c p component) s.world)
              ∙ there)
            ∙ sym answer
            ∙ h
        | inr (inl (user, password, s', same)) ↦
            ap (λ q. (managed_credentials k t c p component no_credentials sc' q.1).0) same
            ∙ write_credentials-read p component sc sc' user password s' r
                (ap (λ q. q.0) (sym same) ∙ h)
        | inr (inr (e, failed)) ↦ absurd (ground arith)
      ]

  -- Credentials are stable: where a reconcile made or found a managed secret, the next one finds it
  -- and answers with the same name and the same hash, so a database is not restarted. The next one
  -- is given no user and no password; the first may have been, or have generated them.
  pub ensure_authentication_secret_stable :
      (p : Platform) (component : String) (auth : AxonAuthentication) (sc sc' : StorageConfig)
      (s : Run W Write) (r : String × String)
      → auth.secret_ref ≡ ""
      → (ensure_authentication_secret k t c p component auth sc s).0 ≡ ok r
      → (ensure_authentication_secret k t c p component no_credentials sc'
          (ensure_authentication_secret k t c p component auth sc s).1).0
        ≡ ok r
  unfolding ensure_authentication_secret
  ensure_authentication_secret_stable p component auth sc sc' s r managed h =
      ground
        (arith, eq_iff auth.secret_ref "", managed_credentials-stable p component auth sc sc' s r)
