-- ===== src/Platform/Secrets.antt =====
-- The credentials that internal/controller/axonopsplatform_controller.go keeps in secrets.
pub mod Retention
pub mod Origin
pub mod Stable
use axonops_operator.Prelude.{
  ℕ, String, Bool, true, false, Option, none, some, List, [], ◌∷◌, ◌<>◌, ◌==◌, ◌&&◌, not, is_some,
  or_default, map, if◌then◌else◌,
}
use axonops_operator.Errors.{Error, foreign, wrap, Result, ok, err}
use axonops_operator.K8s.{K8s, Key}
use axonops_operator.ConfigHash.{config_data_hash}
use axonops_operator.Platform.Objects.{Map, Object, SecretContent, OwnerReference, StorageClass}
use axonops_operator.Platform.Types.{
  Platform, AxonAuthentication, StorageConfig, key_in, named, lookup, build_labels, get_secret_keys,
}
use axonops_operator.Platform.Cluster.{
  Cluster, Tools, Step, secret, return, throw, annotate, attempt, get_object, apply_object,
  get_storage_class, list_storage_classes, ◌>>=◌, ◌>>◌,
}
use axonops_operator.Platform.Password.{generate_random_password}

-- `configDataHash(secret.Data)`
unfoldable pub digest : Tools → Map → String
unfolding config_data_hash lookup
digest t m =
    config_data_hash t.sha256_hex
      (record { keys = map (λ e. e.0) m; value = λ k. or_default (lookup k m) "" })

unfoldable pub remove_owner_reference : String → List OwnerReference → List OwnerReference
remove_owner_reference uid [] = []
remove_owner_reference uid (r ∷ rs) =
    let rest = remove_owner_reference uid rs in if r.uid == uid then rest else r ∷ rest

-- `SetControllerReference(server, obj)`, and what the mutation does after it.
unfoldable pub owned :
    {A : Type 0} → Tools → Platform → (Object A → Object A) → Object A → Result (Object A)
owned t p change o = elim (t.set_controller_reference p.uid o.owner_references) [
  | err e ↦ err e
  | ok refs ↦ ok (change (record o { owner_references = refs }))
]

-- The mutation of a secret of credentials: a secret that is to survive the resource has no owner.
unfoldable pub managed_secret :
    Tools → Platform → String → Bool → Map → Object SecretContent → Result (Object SecretContent)
unfolding owned remove_owner_reference build_labels
managed_secret t p component retain entries o =
    if retain
    then ok
        (filled (record o { owner_references = remove_owner_reference p.uid o.owner_references }))
    else owned t p filled o
  where
    filled : Object SecretContent → Object SecretContent
    filled s = record s {
      labels = build_labels p component;
      content = record s.content { type = "Opaque"; entries = entries };
    }

-- The loop over the storage classes: the name of the first one that is marked as the default.
unfoldable pub default_class : List StorageClass → String
unfolding lookup
default_class [] = ""
default_class (sc ∷ scs) =
    if or_default (lookup "storageclass.kubernetes.io/is-default-class" sc.annotations) "" == "true"
    then sc.name
    else default_class scs

abbrev is_retain : Option String → Bool
is_retain none = false
is_retain (some policy) = policy == "Retain"

module _ {W : Type 0} (k : K8s) (t : Tools) (c : Cluster W) where
  class_retains : String → Step W Bool
  unfolding get_storage_class
  class_retains name = do
    got ← attempt (get_storage_class c name)
    return (elim got [ err e ↦ false | ok sc ↦ is_retain sc.reclaim_policy ])

  -- `shouldRetainCredentials`; an error counts as no.
  unfoldable pub should_retain_credentials : StorageConfig → Step W Bool
  unfolding class_retains list_storage_classes default_class
  should_retain_credentials sc =
      if or_default sc.storage_class_name "" == ""
      then (do
        classes ← attempt (list_storage_classes c)
        elim classes [
          | err e ↦ return false
          | ok scs ↦
              if default_class scs == "" then return false else class_retains (default_class scs)
        ])
      else class_retains (or_default sc.storage_class_name "")

  abbrev credentials : String → String → String → Map
  credentials component user password =
      ((get_secret_keys component).0, user) ∷ ((get_secret_keys component).1, password) ∷ []

  -- Write the secret, with its owner unless it is retained.
  unfoldable pub store_credentials :
      Platform → String → Bool → String → String → Step W (String × String)
  unfolding apply_object managed_secret digest get_secret_keys
  store_credentials p component retain user password = do
    annotate "failed to create/update secret" (
        apply_object c.secrets secret (key_in p (named p component "-auth"))
          (managed_secret t p component retain (credentials component user password)))
    return (named p component "-auth", digest t (credentials component user password))

  unfoldable pub write_credentials :
      Platform → String → StorageConfig → String → String → Step W (String × String)
  unfolding should_retain_credentials store_credentials
  write_credentials p component sc user password = do
    retain ← should_retain_credentials sc
    store_credentials p component retain user password

  missing_key : String → String → Error
  missing_key ref key =
      foreign ("secret " <> t.quote ref <> " missing required key " <> t.quote key)

  -- The case of a reference: the secret and its two keys have to be there.
  referenced_secret : Platform → String → String → Step W (String × String)
  unfolding get_object lookup digest get_secret_keys missing_key
  referenced_secret p component ref = do
    s ←
        annotate ("referenced secret " <> t.quote ref <> " not found")
          (get_object c.secrets (key_in p ref))
    if is_some (lookup (get_secret_keys component).0 s.content.entries)
        then if is_some (lookup (get_secret_keys component).1 s.content.entries)
          then return (ref, digest t s.content.entries)
          else throw (missing_key ref (get_secret_keys component).1)
        else throw (missing_key ref (get_secret_keys component).0)

  unfoldable pub managed_credentials :
      Platform → String → AxonAuthentication → StorageConfig → Step W (String × String)
  unfolding get_object lookup digest get_secret_keys generate_random_password write_credentials
  managed_credentials p component auth sc = do
    got ← attempt (get_object c.secrets (key_in p (named p component "-auth")))
    elim got [
      | ok s ↦
          if auth.username == "" && auth.password == ""
          then return (named p component "-auth", digest t s.content.entries)
          else write_credentials p component sc
              (if auth.username == ""
                then or_default (lookup (get_secret_keys component).0 s.content.entries) ""
                else auth.username)
              (if auth.password == ""
                then or_default (lookup (get_secret_keys component).1 s.content.entries) ""
                else auth.password)
      | err e ↦
          if k.is_not_found e
          then (do
            password ←
                if auth.password == ""
                then annotate "failed to generate password" (generate_random_password c 32)
                else return auth.password
            write_credentials p component sc
                (if auth.username == "" then "axonops" else auth.username) password)
          else throw (wrap "failed to check existing secret" e)
    ]

  -- `ensureAuthenticationSecret`: the secret's name and the hash of its content.
  unfoldable pub ensure_authentication_secret :
      Platform → String → AxonAuthentication → StorageConfig → Step W (String × String)
  unfolding referenced_secret managed_credentials
  ensure_authentication_secret p component auth sc =
      if auth.secret_ref == ""
      then managed_credentials p component auth sc
      else referenced_secret p component auth.secret_ref

  -- `ensureKeystorePasswordSecret`
  unfoldable pub ensure_keystore_password_secret : Platform → String → StorageConfig → Step W String
  unfolding get_object lookup generate_random_password should_retain_credentials apply_object
      managed_secret
  ensure_keystore_password_secret p component sc = do
    got ← attempt (get_object c.secrets (key_in p (named p component "-keystore-password")))
    existing ← elim got [
      | ok s ↦ return (or_default (lookup "password" s.content.entries) "")
      | err e ↦
          if k.is_not_found e
          then return ""
          else throw (wrap "failed to check existing keystore password secret" e)
    ]
    password ←
        if existing == ""
        then annotate "failed to generate keystore password" (generate_random_password c 24)
        else return existing
    retain ← should_retain_credentials sc
    annotate "failed to create/update keystore password secret" (
        apply_object c.secrets secret (key_in p (named p component "-keystore-password"))
          (managed_secret t p component retain (("password", password) ∷ [])))
    return (named p component "-keystore-password")
