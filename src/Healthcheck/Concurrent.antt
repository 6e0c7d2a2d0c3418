-- ===== src/Healthcheck/Concurrent.antt =====
-- What becomes of an entry when two reconcilers of healthchecks of different kinds run at once. Each
-- of them sends back the lists of all kinds as it read them.
use axonops_operator.Prelude.{
  String, eq_iff, ◌≡◌, refl, false, true, some, ◌∷◌, Option, List, arith,
}
use axonops_operator.Errors.{ok}
use axonops_operator.K8s.{Key, K8s}
use axonops_operator.Http.{Url, Std, Env, Run}
use axonops_operator.Http.Trace.{requests}
use axonops_operator.Client.{Client, request}
use axonops_operator.Client.Healthcheck.Records.{Healthchecks, healthchecks_json}
use axonops_operator.Healthcheck.{
  Healthcheck, Kind, IsLawful, healthcheck_exists, is_healthcheck_synced,
}
use axonops_operator.Healthcheck.Http.{http_kind}
use axonops_operator.Healthcheck.Tcp.{tcp_kind}
use axonops_operator.Healthcheck.Shell.{shell_kind}
use axonops_operator.Healthcheck.Steps.{get_all, entries_of, sync}
use axonops_operator.Healthcheck.Sync.{all_url, Places, sync-Places}
use axonops_operator.Healthcheck.Records.{exists-placed}

-- The list of the one kind is not touched by writing that of the other.
pub record AreApart {S S' E E' : Type 0} (K : Kind S E) (K' : Kind S' E') : Type 0 where
  pub checks-other :
      (l : Option (List E')) (p : Healthchecks) → K.checks (K'.with_checks l p) ≡ K.checks p
  pub other-checks :
      (l : Option (List E)) (p : Healthchecks) → K'.checks (K.with_checks l p) ≡ K'.checks p

pub http-tcp-AreApart : AreApart http_kind tcp_kind
unfolding http_kind tcp_kind
http-tcp-AreApart = record { checks-other = λ l p. refl; other-checks = λ l p. refl }

pub http-shell-AreApart : AreApart http_kind shell_kind
unfolding http_kind shell_kind
http-shell-AreApart = record { checks-other = λ l p. refl; other-checks = λ l p. refl }

pub tcp-shell-AreApart : AreApart tcp_kind shell_kind
unfolding tcp_kind shell_kind
tcp-shell-AreApart = record { checks-other = λ l p. refl; other-checks = λ l p. refl }

module _ {S E : Type 0} (K : Kind S E) (lawful : IsLawful K) (h : Healthcheck S)
    (fresh : String) where
  -- A new healthcheck is in the list that its sync sends.
  new-Places :
      (es es' : List E)
      → h.status.synced_healthcheck_id ≡ ""
      → healthcheck_exists K.id_of es "" ≡ false
      → Places K h fresh es es'
      → healthcheck_exists K.id_of es' fresh ≡ true
  new-Places es es' new ids placed = ground (
    arith,
    exists-placed K lawful h fresh es es' ids placed,
    eq_iff (K.id_of (K.build_healthcheck_entry h)) "",
    lawful.id-build h,
    lawful.id-set_id fresh (K.build_healthcheck_entry h),
  )

module _ {W W' S S' E E' : Type 0} (K : Kind S E) (K' : Kind S' E') (k : K8s) (std : Std)
    (env : Env W (Healthcheck S)) (env' : Env W' (Healthcheck S')) where
  -- When the syncs of a new healthcheck and of a healthcheck of another kind, neither of which counts
  -- as synced, have read the same healthchecks, whose URLs parse, and in the list of the new one no
  -- entry has an empty id or the new id, then the entry of the new one is in the update that its own
  -- sync sends, and not in that of the other: if the other update comes last, it erases the entry.
  pub concurrent_syncs :
      (key key' : Key) (h : Healthcheck S) (h' : Healthcheck S') (client client' : Client)
      (s r : Run W (Healthcheck S)) (s' r' : Run W' (Healthcheck S')) (all : Healthchecks)
      {u u' : Url}
      → IsLawful K
      → AreApart K K'
      → is_healthcheck_synced k h ≡ false
      → is_healthcheck_synced k h' ≡ false
      → h.status.synced_healthcheck_id ≡ ""
      → healthcheck_exists K.id_of (entries_of K all) "" ≡ false
      → healthcheck_exists K.id_of (entries_of K all) (env.new_uuid r.world).0 ≡ false
      → std.parse_url (all_url K client h) ≡ ok u
      → std.parse_url (all_url K' client' h') ≡ ok u'
      → get_all K k std env h client s ≡ (ok all, r)
      → get_all K' k std env' h' client' s' ≡ (ok all, r')
      → (p : Healthchecks) × (p' : Healthchecks) × (requests
            (sync K k std env key h client s).1.calls
          ≡ request client "PUT" (all_url K client h) (some (healthchecks_json p))
            ∷ requests r.calls)
        × (requests (sync K' k std env' key' h' client' s').1.calls
            ≡ request client' "PUT" (all_url K' client' h') (some (healthchecks_json p'))
              ∷ requests r'.calls)
        × (healthcheck_exists K.id_of (entries_of K p) (env.new_uuid r.world).0 ≡ true)
        × (healthcheck_exists K.id_of (entries_of K p') (env.new_uuid r.world).0 ≡ false)
  concurrent_syncs key key' h h' client client' s r s' r' all lawful apart old old' new ids unused
        url url' got got' =
      let fresh = (env.new_uuid r.world).0 in
      let (es, sent, placed) = sync-Places K k std env key h client s r all old url got in
      let (es', sent', placed') =
        sync-Places K' k std env' key' h' client' s' r' all old' url' got' in
      (
        K.with_checks (some es) all,
        K'.with_checks (some es') all,
        sent,
        sent',
        ground (
          arith,
          lawful.checks-with_checks (some es) all,
          new-Places K lawful h fresh (entries_of K all) es new ids placed,
        ),
        ground (arith, apart.checks-other (some es') all, unused),
      )
