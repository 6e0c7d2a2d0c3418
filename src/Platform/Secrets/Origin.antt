-- ===== src/Platform/Secrets/Origin.antt =====
-- How the credentials of a database come about.
use axonops_operator.Prelude.{
  String, ◌≡◌, ◌⊎◌, inl, inr, refl, true, false, ◌==◌, ◌&&◌, arith, Bool-cases, or_default,
  if◌then◌else◌,
}
use axonops_operator.Errors.{Error, Result, ok, err, wrap}
use axonops_operator.K8s.{Key, K8s}
use axonops_operator.Http.{Run}
use axonops_operator.Platform.Objects.{Object, SecretContent}
use axonops_operator.Platform.Types.{
  Platform, AxonAuthentication, StorageConfig, key_in, named, lookup, get_secret_keys,
}
use axonops_operator.Platform.Cluster.{Cluster, Tools, Write, get_object}
use axonops_operator.Platform.Password.{generate_random_password}
use axonops_operator.Platform.Secrets.{digest, write_credentials, managed_credentials}

module _ {W : Type 0} (k : K8s) (t : Tools) (c : Cluster W) where
  unfoldable pub auth_key : Platform → String → Key
  auth_key p component = key_in p (named p component "-auth")

  -- How credentials come about: those that are there, a write, or an error.
  abbrev pub Origin : Platform → String → AxonAuthentication → StorageConfig → Run W Write → Type 0
  Origin p component auth sc s =
      ((o : Object SecretContent) × ((c.secrets.get (auth_key p component) s.world).0 ≡ ok o)
        × ((managed_credentials k t c p component auth sc s).0
            ≡ ok (named p component "-auth", digest t o.content.entries))
        × ((managed_credentials k t c p component auth sc s).1.world
            ≡ (c.secrets.get (auth_key p component) s.world).1))
      ⊎ (((user : String) × (password : String) × (s' : Run W Write) × (managed_credentials k t c p
                component auth sc s
              ≡ write_credentials k t c p component sc user password s'))
          ⊎ ((e : Error) × ((managed_credentials k t c p component auth sc s).0 ≡ err e)))

  -- The state after the secret was read, and after a password was generated.
  after_get : Platform → String → Run W Write → Run W Write
  unfolding auth_key get_object
  after_get p component s = (get_object c.secrets (auth_key p component) s).1

  Origin-found :
      (p : Platform) (component : String) (auth : AxonAuthentication) (sc : StorageConfig)
      (s : Run W Write) (o : Object SecretContent)
      → (c.secrets.get (auth_key p component) s.world).0 ≡ ok o
      → Origin p component auth sc s
  unfolding managed_credentials auth_key after_get
  Origin-found p component auth sc s o e =
      elim (Bool-cases (auth.username == "" && auth.password == "")) [
        | inl none_given ↦ inl (o, e, ground arith, ground arith)
        | inr given ↦ inr (
            inl (
              if auth.username == ""
                  then or_default (lookup (get_secret_keys component).0 o.content.entries) ""
                  else auth.username,
              if auth.password == ""
                  then or_default (lookup (get_secret_keys component).1 o.content.entries) ""
                  else auth.password,
              after_get p component s,
              ground arith,
            ))
      ]

  Origin-missing :
      (p : Platform) (component : String) (auth : AxonAuthentication) (sc : StorageConfig)
      (s : Run W Write) (x : Error)
      → (c.secrets.get (auth_key p component) s.world).0 ≡ err x
      → k.is_not_found x ≡ true
      → Origin p component auth sc s
  unfolding managed_credentials auth_key after_get
  Origin-missing p component auth sc s x e missing = elim (Bool-cases (auth.password == "")) [
    | inr given ↦ inr (
        inl (
          if auth.username == "" then "axonops" else auth.username,
          auth.password,
          after_get p component s,
          ground arith,
        ))
    | inl absent ↦ generated (generate_random_password c 32 (after_get p component s)).0 refl absent
  ]
    where
      generated :
          (g : Result String)
          → (generate_random_password c 32 (after_get p component s)).0 ≡ g
          → (auth.password == "") ≡ true
          → Origin p component auth sc s
      generated (ok password) made absent = inr (
          inl (
            if auth.username == "" then "axonops" else auth.username,
            password,
            (generate_random_password c 32 (after_get p component s)).1,
            ground arith,
          ))
      generated (err y) made absent = inr (inr (wrap "failed to generate password" y, ground arith))

  Origin-failed :
      (p : Platform) (component : String) (auth : AxonAuthentication) (sc : StorageConfig)
      (s : Run W Write) (x : Error)
      → (c.secrets.get (auth_key p component) s.world).0 ≡ err x
      → k.is_not_found x ≡ false
      → Origin p component auth sc s
  unfolding managed_credentials auth_key
  Origin-failed p component auth sc s x e other =
      inr (inr (wrap "failed to check existing secret" x, ground arith))

  pub origin :
      (p : Platform) (component : String) (auth : AxonAuthentication) (sc : StorageConfig)
      (s : Run W Write)
      → Origin p component auth sc s
  origin p component auth sc s = found (c.secrets.get (auth_key p component) s.world).0 refl
    where
      found :
          (g : Result (Object SecretContent))
          → (c.secrets.get (auth_key p component) s.world).0 ≡ g
          → Origin p component auth sc s
      found (ok o) e = Origin-found p component auth sc s o e
      found (err x) e = elim (Bool-cases (k.is_not_found x)) [
        | inl missing ↦ Origin-missing p component auth sc s x e missing
        | inr other ↦ Origin-failed p component auth sc s x e other
      ]
