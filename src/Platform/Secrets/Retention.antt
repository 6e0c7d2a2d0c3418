-- ===== src/Platform/Secrets/Retention.antt =====
-- Whether the credentials of a database are retained: the question is always answered, and asking
-- it writes nothing.
use axonops_operator.Prelude.{◌≡◌, Bool, false, arith}
use axonops_operator.Errors.{Result, ok, err}
use axonops_operator.K8s.{K8s}
use axonops_operator.Http.{Run}
use axonops_operator.Http.Trace.{updates}
use axonops_operator.Platform.Types.{StorageConfig}
use axonops_operator.Platform.Cluster.{Cluster, Tools, Write}
use axonops_operator.Platform.Secrets.{should_retain_credentials}

abbrev pub retained : Result Bool → Bool
retained (ok b) = b
retained (err e) = false

module _ {W : Type 0} (k : K8s) (t : Tools) (c : Cluster W) (sc : StorageConfig)
    (s : Run W Write) where
  pub updates-should_retain :
      updates (should_retain_credentials k t c sc s).1.calls ≡ updates s.calls
  unfolding should_retain_credentials
  updates-should_retain = ground arith

  pub should_retain-ok :
      (should_retain_credentials k t c sc s).0
      ≡ ok (retained (should_retain_credentials k t c sc s).0)
  unfolding should_retain_credentials
  should_retain-ok = ground arith
