-- ===== src/Platform/Status/Conditions.antt =====
-- What the last status update says.
use mathlib.Core.Bool.{false≢true}
use axonops_operator.Prelude.{
  String, ◌≡◌, ◌≢◌, refl, Bool, true, false, Option, none, some, [], ◌==◌, ◌∙◌, eq_iff, arith, sym,
  ◌↔◌, ◌&&◌, not, if◌then◌else◌,
}
use axonops_operator.K8s.{Condition, K8s, IsLawful}
use axonops_operator.Platform.Types.{Platform, needs_internal_resources, server_enabled}
use axonops_operator.Platform.Status.{
  condition_at, with_condition, set_if, if_true, component_condition, Findings, final_platform,
  orphans, invalid_configuration,
}

-- The condition of a type of a platform.
abbrev pub find : K8s → Platform → String → Option Condition
find k p type = k.find_status_condition p.status.conditions type

differ : (a b : String) → (a == b) ≡ false → a ≢ b
differ a b h e = false≢true (sym h ∙ (eq_iff a b).1 e)

module _ (k : K8s) (lawful : IsLawful k) where
  find-set_if_ne :
      (o : Option Condition) (p : Platform) (type : String)
      → ((c : Condition) → o ≡ some c → c.type ≢ type)
      → find k (set_if k o p) type ≡ find k p type
  unfolding with_condition
  find-set_if_ne none p type h = refl
  find-set_if_ne (some c) p type h = lawful.find-set_ne p.status.conditions c type (h c refl)

  find-set_if_self : (c : Condition) (p : Platform) → find k (set_if k (some c) p) c.type ≡ some c
  unfolding with_condition
  find-set_if_self c p = lawful.find-set_self p.status.conditions c

  if_true-ne :
      (b : Bool) (d : Condition) (type : String)
      → (d.type == type) ≡ false
      → (c : Condition) → if_true b d ≡ some c
      → c.type ≢ type
  if_true-ne true d type h c e = differ c.type type (ground arith)
  if_true-ne false d type h c e = absurd (ground arith)

  -- Past a condition of another type.
  past :
      (b : Bool) (d : Condition) (p : Platform) (type : String)
      → (d.type == type) ≡ false
      → find k (set_if k (if_true b d) p) type ≡ find k p type
  past b d p type h = find-set_if_ne (if_true b d) p type (if_true-ne b d type h)

  -- What is found under a type that the modes and the dashboard do not have.
  past_modes :
      (f : Findings) (p : Platform) (type : String)
      → ("SearchMode" == type) ≡ false
      → ("TimeSeriesMode" == type) ≡ false
      → ("DashboardReady" == type) ≡ false
      → find k (final_platform k f p) type
        ≡ find k
            (set_if k
              (if_true f.server_reconciled (component_condition p "ServerReady" "Server"))
              (set_if k f.certificate p))
            type
  unfolding final_platform
  past_modes f p type hs ht hd = past _ _ _ type hs ∙ past _ _ _ type ht ∙ past _ _ _ type hd

  -- At the end of a reconcile the server's condition is true at the generation of the resource if
  -- the server was reconciled, and stays as it was otherwise, even where the server is disabled.
  -- The Ready condition, which a rejected specification makes false, is never changed.
  pub final_platform_conditions :
      (f : Findings) (p : Platform)
      → ((c : Condition) → f.certificate ≡ some c → c.type ≡ "CertManagerReady")
      → (find k (final_platform k f p) "ServerReady" ≡ (
          if f.server_reconciled
          then some (
              condition_at p "ServerReady" "True" "Reconciled"
                "Server component reconciled successfully")
          else find k p "ServerReady"))
        × (find k (final_platform k f p) "Ready" ≡ find k p "Ready")
  final_platform_conditions f p cert = (
    past_modes f p "ServerReady" refl refl refl ∙ server f.server_reconciled,
    past_modes f p "Ready" refl refl refl
        ∙ past f.server_reconciled (server_condition p) (set_if k f.certificate p) "Ready" refl
        ∙ certificate "Ready" refl,
  )
    where
      server_condition : Platform → Condition
      server_condition q = component_condition q "ServerReady" "Server"

      certificate :
          (type : String)
          → ("CertManagerReady" == type) ≡ false
          → find k (set_if k f.certificate p) type ≡ find k p type
      certificate type h =
          find-set_if_ne f.certificate p type
            (λ c e q. differ "CertManagerReady" type h (sym (cert c e) ∙ q))

      server :
          (b : Bool)
          → find k
              (set_if k (if_true b (server_condition p)) (set_if k f.certificate p))
              "ServerReady"
            ≡ (if b
                then some (
                    condition_at p "ServerReady" "True" "Reconciled"
                      "Server component reconciled successfully")
                else find k p "ServerReady")
      server true = find-set_if_self (server_condition p) (set_if k f.certificate p)
      server false = certificate "ServerReady" refl

-- cert-manager is asked for exactly if the operator is to run a database; and a specification is
-- accepted exactly if it does not ask for that without a server.
pub needs_internal_resources-orphans :
    (p : Platform)
    → ((needs_internal_resources p ≡ true) ↔ (orphans p ≢ []))
      × ((invalid_configuration p ≡ none)
          ↔ ((needs_internal_resources p && not (server_enabled p.spec.server)) ≡ false))
unfolding needs_internal_resources orphans invalid_configuration
needs_internal_resources-orphans p =
    ((λ h e. ground arith, λ h. ground arith), (λ h. ground arith, λ h. ground arith))
