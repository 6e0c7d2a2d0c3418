-- ===== src/Platform/Components/Gates.antt =====
-- The order in which the components come up: each waits for those that it depends on.
use mathlib.Core.Path.{subst}
use axonops_operator.Prelude.{
  ℕ, ◌<◌, ◌<>◌, Bool-cases, false, join, String, ◌≡◌, ◌⊎◌, inl, inr, refl, true, Option, none, some,
  List, [], ◌∷◌, arith, ap, sym, ◌∙◌,
}
use axonops_operator.Errors.{Error, Result, ok, err, error_text}
use axonops_operator.K8s.{Key, K8s, Outcome, requeue, fail}
use axonops_operator.Http.{Run}
use axonops_operator.Http.Trace.{updates}
use axonops_operator.Platform.Types.{
  Platform, server_enabled, dashboard_enabled, base_enabled, is_time_series_external,
  is_search_external, component_timeseries, component_search, component_name, key_in,
}
use axonops_operator.Platform.Objects.{Object, StatefulSetContent}
use axonops_operator.Platform.Status.{Findings, waiting}
use axonops_operator.Platform.Cluster.{Cluster, Tools, Write}
use axonops_operator.Platform.Steps.{
  replicas_ready, workload_ready, time_series_ready, search_ready, server_ready,
}
use axonops_operator.Platform.Components.{reasons, refetch_status, server_gate, dashboard_gate}
use axonops_operator.Platform.Reconcile.Paused.{object_writes}

-- What was read of a stateful set says that it has replicas and that every one of them is ready.
abbrev pub AllReady : Result (Object StatefulSetContent) → Type 0
AllReady (ok o) =
    (n : ℕ) × (o.content.spec.replicas ≡ some n) × (0 < n) × (o.content.ready_replicas ≡ n)
AllReady (err e) = ⊥

replicas_ready-all :
    (o : Object StatefulSetContent)
    → replicas_ready o.content.spec.replicas o.content.ready_replicas ≡ true
    → AllReady (ok o)
unfolding replicas_ready
replicas_ready-all o e = go o.content.spec.replicas refl
  where
    go : (r : Option ℕ) → o.content.spec.replicas ≡ r → AllReady (ok o)
    go none is = absurd (ground arith)
    go (some n) is = (n, is, ground arith, ground arith)

module _ {W : Type 0} (k : K8s) (t : Tools) (c : Cluster W) where
  -- The reconcile ends without an object applied or deleted: it is tried again, or the resource
  -- could not be read.
  abbrev pub Waits : Run W Write → Result Outcome × Run W Write → Type 0
  Waits s r =
      ((r.0 ≡ ok (requeue 10)) ⊎ ((e : Error) × (r.0 ≡ ok (fail (k.ignore_not_found e)))))
      × (object_writes (updates r.1.calls) ≡ object_writes (updates s.calls))

  refetch_status-Waits :
      (key : Key) (change : Platform → Platform) (s : Run W Write)
      → Waits s (refetch_status k t c key change (requeue 10) s)
  unfolding refetch_status object_writes
  refetch_status-Waits key change s = after (c.get_platform key s.world).0 refl
    where
      after :
          (r : Result Platform)
          → (c.get_platform key s.world).0 ≡ r
          → Waits s (refetch_status k t c key change (requeue 10) s)
      after (err e) got = (inr (e, ground arith), ground arith)
      after (ok p) got = (inl (ground arith), ground arith)

  -- The question whether a workload is ready writes nothing.
  updates-time_series_ready :
      (p : Platform) (s : Run W Write)
      → updates (time_series_ready k c p s).1.calls ≡ updates s.calls
  unfolding time_series_ready
  updates-time_series_ready p s = ground arith

  updates-search_ready :
      (p : Platform) (s : Run W Write) → updates (search_ready k c p s).1.calls ≡ updates s.calls
  unfolding search_ready
  updates-search_ready p s = ground arith

  updates-server_ready :
      (p : Platform) (s : Run W Write) → updates (server_ready k c p s).1.calls ≡ updates s.calls
  unfolding server_ready
  updates-server_ready p s = ground arith

  abbrev answer : Result (Option String) → Option String
  answer (ok o) = o
  answer (err e) = none

  time_series_ready-ok :
      (p : Platform) (s : Run W Write)
      → (time_series_ready k c p s).0 ≡ ok (answer (time_series_ready k c p s).0)
  unfolding time_series_ready
  time_series_ready-ok p s = ground arith

  search_ready-ok :
      (p : Platform) (s : Run W Write)
      → (search_ready k c p s).0 ≡ ok (answer (search_ready k c p s).0)
  unfolding search_ready
  search_ready-ok p s = ground arith

  server_ready-ok :
      (p : Platform) (s : Run W Write)
      → (server_ready k c p s).0 ≡ ok (answer (server_ready k c p s).0)
  unfolding server_ready
  server_ready-ok p s = ground arith

  -- A run that is a fetch and a status update from a state with the same writes.
  Waits-moved :
      (key : Key) (change : Platform → Platform) (s s' : Run W Write)
      (r : Result Outcome × Run W Write)
      → r ≡ refetch_status k t c key change (requeue 10) s'
      → updates s'.calls ≡ updates s.calls
      → Waits s r
  Waits-moved key change s s' r same calls =
      let (answered, kept) = refetch_status-Waits key change s' in
      (
        subst
            (λ q.
              (q.0 ≡ ok (requeue 10)) ⊎ ((e : Error) × (q.0 ≡ ok (fail (k.ignore_not_found e)))))
            (sym same) answered,
        ap (λ q. object_writes (updates q.1.calls)) same ∙ kept ∙ ap object_writes calls,
      )

  -- The status that the server waits with.
  abbrev for_databases : Findings → List String → Platform → Platform
  for_databases f whys =
      waiting k f.certificate "ServerReady" "WaitingForDatabases" (join "; " whys)

  server_gate-refetch :
      (key : Key) (p : Platform) (f : Findings) (s : Run W Write) (a b : Option String)
      (why : String) (whys : List String)
      → server_enabled p.spec.server ≡ true
      → (time_series_ready k c p s).0 ≡ ok a
      → (search_ready k c p (time_series_ready k c p s).1).0 ≡ ok b
      → reasons a b ≡ why ∷ whys
      → server_gate k t c key p f s
        ≡ refetch_status k t c key
            (for_databases f (why ∷ whys))
            (requeue 10)
            (search_ready k c p (time_series_ready k c p s).1).1
  unfolding server_gate
  server_gate-refetch key p f s a b why whys enabled ea eb e = ground arith

  -- With a reason from one of the databases at least, the server waits.
  server_gate-reasons :
      (key : Key) (p : Platform) (f : Findings) (s : Run W Write) (a b : Option String)
      (why : String)
      → server_enabled p.spec.server ≡ true
      → (time_series_ready k c p s).0 ≡ ok a
      → (search_ready k c p (time_series_ready k c p s).1).0 ≡ ok b
      → (a ≡ some why) ⊎ (b ≡ some why)
      → Waits s (server_gate k t c key p f s)
  server_gate-reasons key p f s a b why enabled ea eb unready = go a b ea eb unready
    where
      moved :
          (x : String) (xs : List String)
          → server_gate k t c key p f s
            ≡ refetch_status k t c key
                (for_databases f (x ∷ xs))
                (requeue 10)
                (search_ready k c p (time_series_ready k c p s).1).1
          → Waits s (server_gate k t c key p f s)
      moved x xs same =
          Waits-moved key (for_databases f (x ∷ xs)) s
            (search_ready k c p (time_series_ready k c p s).1).1 (server_gate k t c key p f s) same
            (updates-search_ready p (time_series_ready k c p s).1 ∙ updates-time_series_ready p s)

      go :
          (a b : Option String)
          → (time_series_ready k c p s).0 ≡ ok a
          → (search_ready k c p (time_series_ready k c p s).1).0 ≡ ok b
          → (a ≡ some why) ⊎ (b ≡ some why)
          → Waits s (server_gate k t c key p f s)
      go none none ea eb u = absurd (ground arith)
      go none (some y) ea eb u =
          moved y [] (server_gate-refetch key p f s none (some y) y [] enabled ea eb refl)
      go (some x) none ea eb u =
          moved x [] (server_gate-refetch key p f s (some x) none x [] enabled ea eb refl)
      go (some x) (some y) ea eb u =
          moved x (y ∷ [])
            (server_gate-refetch key p f s (some x) (some y) x (y ∷ []) enabled ea eb refl)

  -- With a database that is reported as not ready, the server waits.
  server_gate-reported :
      (key : Key) (p : Platform) (f : Findings) (s : Run W Write) (why : String)
      → server_enabled p.spec.server ≡ true
      → ((time_series_ready k c p s).0 ≡ ok (some why))
        ⊎ ((search_ready k c p (time_series_ready k c p s).1).0 ≡ ok (some why))
      → Waits s (server_gate k t c key p f s)
  server_gate-reported key p f s why enabled (inl unready) =
      server_gate-reasons key p f s (some why)
        (answer (search_ready k c p (time_series_ready k c p s).1).0) why enabled unready
        (search_ready-ok p (time_series_ready k c p s).1) (inl refl)
  server_gate-reported key p f s why enabled (inr unready) =
      server_gate-reasons key p f s (answer (time_series_ready k c p s).0) (some why) why enabled
        (time_series_ready-ok p s) unready (inr refl)

  -- The stateful set of a component, as the controller reads it, is missing, cannot be read or has
  -- not all of its replicas ready.
  abbrev pub Unready : Platform → String → Run W Write → Type 0
  Unready p component s =
      ¬ AllReady (c.stateful_sets.get (key_in p (component_name p component)) s.world).0

  workload_ready-Unready :
      (p : Platform) (component : String) (s : Run W Write)
      → Unready p component s
      → (why : String) × ((workload_ready k c p component s).0 ≡ ok (some why))
  unfolding workload_ready
  workload_ready-Unready p component s unready =
      go (c.stateful_sets.get (key_in p (component_name p component)) s.world).0 refl
    where
      go :
          (r : Result (Object StatefulSetContent))
          → (c.stateful_sets.get (key_in p (component_name p component)) s.world).0 ≡ r
          → (why : String) × ((workload_ready k c p component s).0 ≡ ok (some why))
      go (err e) got = elim (Bool-cases (k.is_not_found e)) [
        | inl missing ↦ ("Waiting for " <> component <> " to become ready", ground arith)
        | inr other ↦
            ("Failed to check " <> component <> " readiness: " <> error_text e, ground arith)
      ]
      go (ok o) got =
          elim (Bool-cases (replicas_ready o.content.spec.replicas o.content.ready_replicas)) [
            | inl ready ↦ absurd (unready (subst AllReady (sym got) (replicas_ready-all o ready)))
            | inr not_ready ↦ ("Waiting for " <> component <> " to become ready", ground arith)
          ]

  -- A server that is enabled is not touched, and neither is the dashboard, while a database that the
  -- operator runs has not all of its replicas ready: its stateful set, as it is read, asks for none
  -- or has another number of them ready, is missing, or could not be read.
  pub server_gate-Waits :
      (key : Key) (p : Platform) (f : Findings) (s : Run W Write)
      → server_enabled p.spec.server ≡ true
      → ((base_enabled p.spec.time_series ≡ true)
          × (is_time_series_external p ≡ false)
          × Unready p component_timeseries s)
        ⊎ ((base_enabled p.spec.search ≡ true)
            × (is_search_external p ≡ false)
            × Unready p component_search (time_series_ready k c p s).1)
      → Waits s (server_gate k t c key p f s)
  unfolding time_series_ready search_ready
  server_gate-Waits key p f s enabled (inl (on, internal, unready)) =
      let (why, is) = workload_ready-Unready p component_timeseries s unready in
      server_gate-reported key p f s why enabled (inl (ground (arith, is)))
  server_gate-Waits key p f s enabled (inr (on, internal, unready)) =
      let (why, is) =
        workload_ready-Unready p component_search (time_series_ready k c p s).1 unready in
      server_gate-reported key p f s why enabled (inr (ground (arith, is)))

  -- The dashboard is not touched while the server has not all of its replicas ready.
  pub dashboard_gate-Waits :
      (key : Key) (p : Platform) (f : Findings) (s : Run W Write) (why : String)
      → dashboard_enabled p.spec.dashboard ≡ true
      → (server_ready k c p s).0 ≡ ok (some why)
      → Waits s (dashboard_gate k t c key p f s)
  unfolding dashboard_gate
  dashboard_gate-Waits key p f s why enabled unready =
      Waits-moved key (waiting k f.certificate "DashboardReady" "WaitingForServer" why) s
        (server_ready k c p s).1 (dashboard_gate k t c key p f s) (ground arith)
        (updates-server_ready p s)
