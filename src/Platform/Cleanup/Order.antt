-- ===== src/Platform/Cleanup/Order.antt =====
-- What a clean-up deletes, and in which order.
use axonops_operator.Prelude.{
  ℕ, zero, suc, ◌<◌, String, ◌≡◌, ◌⊎◌, inl, inr, refl, Bool, true, false, List, [], ◌∷◌, arith,
  Bool-cases, length, ap, ◌∙◌,
}
use axonops_operator.Errors.{Error, Result, ok, err}
use axonops_operator.K8s.{Key, K8s}
use axonops_operator.Http.{Run}
use axonops_operator.Http.Trace.{updates}
use axonops_operator.Platform.Types.{Platform, key_in, named, component_name}
use axonops_operator.Platform.Cluster.{
  Kind, Cluster, Write, deleted, secret, service_account, service, config_map, stateful_set,
  deployment, certificate, cluster_issuer, ingress, http_route, gateway,
}
use axonops_operator.Platform.Cleanup.{delete_kind, delete_all}

-- The first `n` resources of a list, deleted in order, the last one first in the trace.
unfoldable pub deletions : Platform → ℕ → List (Kind × String) → List Write → List Write
deletions p zero rs ws = ws
deletions p (suc n) [] ws = ws
deletions p (suc n) ((kind, name) ∷ rs) ws = deletions p n rs (deleted kind (key_in p name) ∷ ws)

-- What a database leaves behind when it is no longer run by the operator: with its storage kept,
-- all but the two secrets of credentials.
abbrev pub left_over : Platform → String → Bool → List (Kind × String)
left_over p component true =
    (stateful_set, component_name p component)
    ∷ (service, named p component "-headless")
    ∷ (service, component_name p component)
    ∷ (secret, named p component "-tls")
    ∷ []
left_over p component false =
    (stateful_set, component_name p component)
    ∷ (service, named p component "-headless")
    ∷ (service, component_name p component)
    ∷ (secret, named p component "-tls")
    ∷ (secret, named p component "-auth")
    ∷ (secret, named p component "-keystore-password")
    ∷ []

module _ {W : Type 0} (k : K8s) (c : Cluster W) (p : Platform) where
  updates-delete_kind :
      (kind : Kind) (key : Key) (s : Run W Write)
      → updates (delete_kind c kind key s).1.calls ≡ deleted kind key ∷ updates s.calls
  unfolding delete_kind
  updates-delete_kind secret key s = refl
  updates-delete_kind service_account key s = refl
  updates-delete_kind service key s = refl
  updates-delete_kind config_map key s = refl
  updates-delete_kind stateful_set key s = refl
  updates-delete_kind deployment key s = refl
  updates-delete_kind certificate key s = refl
  updates-delete_kind cluster_issuer key s = refl
  updates-delete_kind ingress key s = refl
  updates-delete_kind http_route key s = refl
  updates-delete_kind gateway key s = refl

  -- Either all of the list is deleted, or the deletions stop at an error that is not a "not found".
  abbrev pub Deletes : List (Kind × String) → Run W Write → Result (Unit {0}) × Run W Write → Type 0
  Deletes rs s r =
      ((r.0 ≡ ok tt) × (updates r.1.calls ≡ deletions p (length rs) rs (updates s.calls)))
      ⊎ (e : Error) × (n : ℕ) × (r.0 ≡ err e)
        × (k.is_not_found e ≡ false)
        × (n < length rs)
        × (updates r.1.calls ≡ deletions p (suc n) rs (updates s.calls))

  -- The first deletion, given what the others come to.
  delete_all-step :
      (kind : Kind) (name : String) (rs : List (Kind × String)) (s : Run W Write)
      → Deletes rs
          (delete_kind c kind (key_in p name) s).1
          (delete_all k c p rs (delete_kind c kind (key_in p name) s).1)
      → Deletes ((kind, name) ∷ rs) s (delete_all k c p ((kind, name) ∷ rs) s)
  unfolding delete_all deletions
  delete_all-step kind name rs s rest = step (delete_kind c kind (key_in p name) s).0 refl
    where
      one :
          updates (delete_kind c kind (key_in p name) s).1.calls
          ≡ deleted kind (key_in p name) ∷ updates s.calls
      one = updates-delete_kind kind (key_in p name) s

      goes_on :
          delete_all k c p ((kind, name) ∷ rs) s
            ≡ delete_all k c p rs (delete_kind c kind (key_in p name) s).1
          → Deletes ((kind, name) ∷ rs) s (delete_all k c p ((kind, name) ∷ rs) s)
      goes_on same = elim rest [
        | inl (succeeded, order) ↦ inl (
          ap (λ r. r.0) same ∙ succeeded,
          ap (λ r. updates r.1.calls) same ∙ order ∙ ap (deletions p (length rs) rs) one,
        )
        | inr (e, n, failed, other, short, order) ↦ inr (
          e,
          suc n,
          ap (λ r. r.0) same ∙ failed,
          other,
          omega arith,
          ap (λ r. updates r.1.calls) same ∙ order ∙ ap (deletions p (suc n) rs) one,
        )
      ]

      step :
          (r : Result (Unit {0}))
          → (delete_kind c kind (key_in p name) s).0 ≡ r
          → Deletes ((kind, name) ∷ rs) s (delete_all k c p ((kind, name) ∷ rs) s)
      step (ok u) e = goes_on (ground arith)
      step (err x) e = elim (Bool-cases (k.is_not_found x)) [
        | inl missing ↦ goes_on (ground arith)
        | inr other ↦ inr (x, 0, ground arith, other, omega arith, ground (arith, one))
      ]

  pub delete_all-Deletes :
      (rs : List (Kind × String)) (s : Run W Write) → Deletes rs s (delete_all k c p rs s)
  unfolding delete_all deletions
  delete_all-Deletes [] s = inl (refl, refl)
  delete_all-Deletes ((kind, name) ∷ rs) s =
      delete_all-step kind name rs s
        (delete_all-Deletes rs (delete_kind c kind (key_in p name) s).1)
