-- ===== src/Platform/Workloads/Mounts.antt =====
-- What the containers mount, against the volumes that their pods have and the certificate files
-- that the server's configuration names.
use mathlib.Core.List.{append_assoc}
use axonops_operator.Prelude.{
  String, ◌≡◌, ◌⊎◌, inl, inr, refl, Bool, true, false, Option, List, [], ◌∷◌, ◌++◌, ◌==◌, ◌&&◌,
  ◌||◌, arith, eq_refl, Bool-cases,
}
use axonops_operator.Platform.Objects.{
  Volume, VolumeMount, Container, PodSpec, ClaimTemplate, empty_dir, config_map,
}
use axonops_operator.Platform.Types.{
  Platform, AxonBaseComponent, AxonServerComponent, AxonDashboardComponent, is_external, named,
  component_name,
}
use axonops_operator.Platform.Cluster.{Tools}
use axonops_operator.Platform.Workloads.{
  chown_container, mount, secret_volume, pem_items, keystore_items,
}
use axonops_operator.Platform.Workloads.Timeseries.{timeseries_spec}
use axonops_operator.Platform.Workloads.Search.{search_spec}
use axonops_operator.Platform.Workloads.Server.{
  server_spec, cert_secret, has_certificates, tls_mounts, tls_volumes,
}
use axonops_operator.Platform.Workloads.Dashboard.{dashboard_spec}

has_volume : String → List Volume → Bool
has_volume n [] = false
has_volume n (v ∷ vs) = v.name == n || has_volume n vs

has_claim : String → List ClaimTemplate → Bool
has_claim n [] = false
has_claim n (v ∷ vs) = v.name == n || has_claim n vs

-- Every mount names a volume or a claim.
unfoldable pub resolve : List Volume → List ClaimTemplate → List VolumeMount → Bool
unfolding has_volume has_claim
resolve vs cs [] = true
resolve vs cs (m ∷ ms) = (has_volume m.name vs || has_claim m.name cs) && resolve vs cs ms

containers_resolve : List Volume → List ClaimTemplate → List Container → Bool
unfolding resolve
containers_resolve vs cs [] = true
containers_resolve vs cs (c ∷ rest) = resolve vs cs c.volume_mounts && containers_resolve vs cs rest

unfoldable pub pod_resolves : PodSpec → List ClaimTemplate → Bool
unfolding containers_resolve
pod_resolves pod cs =
    containers_resolve pod.volumes cs pod.init_containers
    && containers_resolve pod.volumes cs pod.containers

has_volume-append :
    (n : String) (vs ws : List Volume)
    → has_volume n (vs ++ ws) ≡ (has_volume n vs || has_volume n ws)
unfolding has_volume
has_volume-append n [] ws = refl
has_volume-append n (v ∷ vs) ws = ground (arith, has_volume-append n vs ws)

-- More volumes in front, and any claims, keep the mounts of what was there.
resolve-append :
    (vs ws : List Volume) (cs : List ClaimTemplate) (ms : List VolumeMount)
    → resolve ws [] ms ≡ true
    → resolve (vs ++ ws) cs ms ≡ true
unfolding resolve
resolve-append vs ws cs [] h = refl
resolve-append vs ws cs (m ∷ ms) h =
    ground (arith, has_volume-append m.name vs ws, resolve-append vs ws cs ms)

resolve-mounts :
    (vs : List Volume) (cs : List ClaimTemplate) (ms ns : List VolumeMount)
    → resolve vs cs (ms ++ ns) ≡ (resolve vs cs ms && resolve vs cs ns)
unfolding resolve
resolve-mounts vs cs [] ns = refl
resolve-mounts vs cs (m ∷ ms) ns = ground (arith, resolve-mounts vs cs ms ns)

has_volume_inside :
    (v : Volume) (vs ws : List Volume) → has_volume v.name (vs ++ (v ∷ []) ++ ws) ≡ true
unfolding has_volume
has_volume_inside v [] ws = rw (eq_refl v.name)
has_volume_inside v (u ∷ vs) ws = ground (arith, has_volume_inside v vs ws)

-- Mounts and volumes go together: neither is there, or one of each under the same name.
abbrev Together : String → List VolumeMount → List Volume → Type 0
Together name ms vs =
    ((ms ≡ []) × (vs ≡ []))
    ⊎ (path : String) × (secret : String) × (items : List String) × (ms ≡ mount name path true ∷ [])
      × (vs ≡ secret_volume name secret items ∷ [])

tls-Together :
    (b : Option AxonBaseComponent) (name path internal : String)
    → Together name (tls_mounts b name path) (tls_volumes b name internal)
unfolding tls_mounts tls_volumes
tls-Together b name path internal = elim (Bool-cases (is_external b)) [
  | inr e ↦ inr (path, internal, pem_items, rw e refl, rw e refl)
  | inl e ↦ elim (Bool-cases (has_certificates b)) [
    | inl h ↦ inr (path, cert_secret b, pem_items, rw (e, h) refl, rw (e, h) refl)
    | inr h ↦ inl (rw (e, h) refl, rw (e, h) refl)
  ]
]

Together-resolve :
    (name : String) (ms : List VolumeMount) (us vs ws : List Volume) (cs : List ClaimTemplate)
    → Together name ms us
    → resolve (vs ++ us ++ ws) cs ms ≡ true
unfolding resolve
Together-resolve name ms us vs ws cs (inl (m, u)) = rw m refl
Together-resolve name ms us vs ws cs (inr (path, secret, items, m, u)) =
    rw (m, u) (ground (arith, has_volume_inside (secret_volume name secret items) vs ws))

-- The volumes in front of those that depend on the specification.
abbrev database_base : Platform → String → List Volume
database_base p component = secret_volume "tls-certs" (named p component "-tls") keystore_items ∷ []

abbrev server_base : Platform → List Volume
server_base p =
    secret_volume "config" (component_name p "server") []
    ∷ record { name = "logs"; source = empty_dir }
    ∷ []

abbrev dashboard_base : Platform → List Volume
dashboard_base p =
    record { name = "config"; source = config_map (component_name p "dashboard") } ∷ []

-- The mounts behind those of every server.
server_rest :
    (m1 m2 extra : List VolumeMount) (vs v1 v2 ws : List Volume) (cs : List ClaimTemplate)
    (n1 n2 : String)
    → Together n1 m1 v1
    → Together n2 m2 v2
    → resolve ws [] extra ≡ true
    → resolve (vs ++ v1 ++ v2 ++ ws) cs (m1 ++ m2 ++ extra) ≡ true
server_rest m1 m2 extra vs v1 v2 ws cs n1 n2 t1 t2 h = ground (
  arith,
  resolve-mounts (vs ++ v1 ++ v2 ++ ws) cs (m1 ++ m2) extra,
  resolve-mounts (vs ++ v1 ++ v2 ++ ws) cs m1 m2,
  first,
  Together-resolve n2 m2 v2 (vs ++ v1) ws cs t2,
  resolve-append (vs ++ v1 ++ v2) ws cs extra h,
)
  where
    first : resolve (vs ++ v1 ++ v2 ++ ws) cs m1 ≡ true
    first = rw (append_assoc (vs ++ v1) v2 ws) (Together-resolve n1 m1 v1 vs (v2 ++ ws) cs t1)

module _ (t : Tools) (p : Platform) where
  server_resolves :
      (srv : AxonServerComponent) (hash : String)
      → resolve srv.base.extra_volumes [] srv.base.extra_volume_mounts ≡ true
      → pod_resolves
          (server_spec t p srv hash).template.spec
          (server_spec t p srv hash).volume_claim_templates
        ≡ true
  unfolding pod_resolves server_spec chown_container has_claim has_volume resolve
  server_resolves srv hash h = ground (
    arith,
    server_rest (tls_mounts p.spec.time_series "timeseries-tls" "/etc/axonops/certs/timeseries")
        (tls_mounts p.spec.search "search-tls" "/etc/axonops/certs/search")
        srv.base.extra_volume_mounts (server_base p)
        (tls_volumes p.spec.time_series "timeseries-tls" (named p "timeseries" "-tls"))
        (tls_volumes p.spec.search "search-tls" (named p "search" "-tls")) srv.base.extra_volumes
        (server_spec t p srv hash).volume_claim_templates "timeseries-tls" "search-tls"
        (tls-Together p.spec.time_series "timeseries-tls" "/etc/axonops/certs/timeseries"
          (named p "timeseries" "-tls"))
        (tls-Together p.spec.search "search-tls" "/etc/axonops/certs/search"
          (named p "search" "-tls"))
        h,
  )

  timeseries_resolves :
      (ts : AxonBaseComponent) (hash : String)
      → resolve ts.extra_volumes [] ts.extra_volume_mounts ≡ true
      → pod_resolves
          (timeseries_spec t p ts hash).template.spec
          (timeseries_spec t p ts hash).volume_claim_templates
        ≡ true
  unfolding pod_resolves timeseries_spec has_claim has_volume resolve
  timeseries_resolves ts hash h = ground (
    arith,
    resolve-append (database_base p "timeseries") ts.extra_volumes
        (timeseries_spec t p ts hash).volume_claim_templates ts.extra_volume_mounts h,
  )

  search_resolves :
      (search : AxonBaseComponent) (hash : String)
      → resolve search.extra_volumes [] search.extra_volume_mounts ≡ true
      → pod_resolves
          (search_spec p search hash).template.spec
          (search_spec p search hash).volume_claim_templates
        ≡ true
  unfolding pod_resolves search_spec chown_container has_claim has_volume resolve
  search_resolves search hash h = ground (
    arith,
    resolve-append (database_base p "search") search.extra_volumes
        (search_spec p search hash).volume_claim_templates search.extra_volume_mounts h,
  )

  dashboard_resolves :
      (dash : AxonDashboardComponent) (hash : String)
      → resolve dash.base.extra_volumes [] dash.base.extra_volume_mounts ≡ true
      → pod_resolves (dashboard_spec p dash hash).template.spec [] ≡ true
  unfolding pod_resolves dashboard_spec has_claim has_volume resolve
  dashboard_resolves dash hash h = ground (
    arith,
    resolve-append (dashboard_base p) dash.base.extra_volumes [] dash.base.extra_volume_mounts h,
  )

  -- If the extra mounts of each component name extra volumes of it, then every mount of every
  -- container that the operator runs, init containers included, names a volume of its pod or a
  -- claim of its stateful set, whichever databases are external and have certificates.
  pub mounts_resolve :
      (ts search : AxonBaseComponent) (srv : AxonServerComponent) (dash : AxonDashboardComponent)
      (hash : String)
      → resolve ts.extra_volumes [] ts.extra_volume_mounts ≡ true
      → resolve search.extra_volumes [] search.extra_volume_mounts ≡ true
      → resolve srv.base.extra_volumes [] srv.base.extra_volume_mounts ≡ true
      → resolve dash.base.extra_volumes [] dash.base.extra_volume_mounts ≡ true
      → (pod_resolves
            (timeseries_spec t p ts hash).template.spec
            (timeseries_spec t p ts hash).volume_claim_templates
          ≡ true)
        × (pod_resolves
              (search_spec p search hash).template.spec
              (search_spec p search hash).volume_claim_templates
            ≡ true)
        × (pod_resolves
              (server_spec t p srv hash).template.spec
              (server_spec t p srv hash).volume_claim_templates
            ≡ true)
        × (pod_resolves (dashboard_spec p dash hash).template.spec [] ≡ true)
  mounts_resolve ts search srv dash hash ht hs hr hd = (
    timeseries_resolves ts hash ht,
    search_resolves search hash hs,
    server_resolves srv hash hr,
    dashboard_resolves dash hash hd,
  )
