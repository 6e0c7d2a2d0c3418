-- ===== src/Platform/Reconcile/Paused.antt =====
-- What is written while the resource is paused.
use axonops_operator.Prelude.{◌≡◌, refl, true, none, List, [], ◌∷◌, arith}
use axonops_operator.Errors.{Result, ok, err}
use axonops_operator.K8s.{Key, K8s}
use axonops_operator.Http.{Run}
use axonops_operator.Http.Trace.{updates}
use axonops_operator.Platform.Types.{Platform}
use axonops_operator.Platform.Cluster.{
  Cluster, Tools, Write, update_platform, get_platform, ◌>>=◌, applied, deleted, platform_written,
  status_written,
}
use axonops_operator.Platform.Reconcile.{
  platform_finalizer, with_finalizers, check_pause, reconcile_live, reconcile_body,
}

-- The writes of objects other than the resource.
unfoldable pub object_writes : List Write → List Write
object_writes [] = []
object_writes (applied kind key ∷ ws) = applied kind key ∷ object_writes ws
object_writes (deleted kind key ∷ ws) = deleted kind key ∷ object_writes ws
object_writes (platform_written p ∷ ws) = object_writes ws
object_writes (status_written p ∷ ws) = object_writes ws

module _ {W : Type 0} (k : K8s) (t : Tools) (c : Cluster W) where
  check_pause-paused :
      (key : Key) (p : Platform) (s : Run W Write)
      → p.spec.pause ≡ true
      → object_writes (updates (check_pause k t c key p s).1.calls)
        ≡ object_writes (updates s.calls)
  unfolding check_pause object_writes
  check_pause-paused key p s h = ground arith

  -- The state after the finalizer was added.
  abbrev written : Key → Platform → Run W Write → Run W Write
  written key p s =
      (update_platform c
        (with_finalizers (k.add_finalizer p.metadata.finalizers platform_finalizer) p) s).1

  reconcile_live-paused :
      (key : Key) (p : Platform) (s : Run W Write)
      → p.spec.pause ≡ true
      → ((q : Platform) (w : W) → (c.get_platform key w).0 ≡ ok q → q.spec.pause ≡ true)
      → object_writes (updates (reconcile_live k t c key p s).1.calls)
        ≡ object_writes (updates s.calls)
  unfolding reconcile_live object_writes update_platform get_platform
  reconcile_live-paused key p s h always = ground (
    arith,
    check_pause-paused key p s h,
    added_then (c.get_platform key (written key p s).world).0 refl,
  )
    where
      added_then :
          (r : Result Platform)
          → (c.get_platform key (written key p s).world).0 ≡ r
          → object_writes
              (updates ((get_platform c key >>= check_pause k t c key) (written key p s)).1.calls)
            ≡ object_writes (updates s.calls)
      added_then (err e) got = ground arith
      added_then (ok q) got = ground (
        arith,
        check_pause-paused key q (get_platform c key (written key p s)).1
            (always q (written key p s).world got),
      )

  -- While every platform that the API server returns for the key is paused and not being deleted,
  -- a reconcile applies and deletes no object; it writes at most the platform and its status.
  pub reconcile_body-paused :
      (key : Key)
      → ((q : Platform) (w : W)
          → (c.get_platform key w).0 ≡ ok q
          → (q.spec.pause ≡ true) × (q.metadata.deletion_timestamp ≡ none))
      → (s : Run W Write)
      → object_writes (updates (reconcile_body k t c key s).1.calls)
        ≡ object_writes (updates s.calls)
  unfolding reconcile_body get_platform
  reconcile_body-paused key always s = after (c.get_platform key s.world).0 refl
    where
      after :
          (r : Result Platform)
          → (c.get_platform key s.world).0 ≡ r
          → object_writes (updates (reconcile_body k t c key s).1.calls)
            ≡ object_writes (updates s.calls)
      after (err e) got = ground arith
      after (ok p) got =
          let (paused, live) = always p s.world got in
          ground (
            arith,
            live,
            reconcile_live-paused key p (get_platform c key s).1 paused (λ q w g. (always q w g).0),
          )
