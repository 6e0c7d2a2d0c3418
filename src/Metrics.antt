-- ===== src/Metrics.antt =====
-- internal/metrics/metrics.go, and the deferred block by which every `Reconcile` reports its
-- outcome. The duration is not modelled.
use axonops_operator.Prelude.{String, Option, none, some, ◌||◌, is_some, if◌then◌else◌}
use axonops_operator.Errors.{Error}
use axonops_operator.K8s.{K8s, Outcome}
use axonops_operator.Http.{M, pure, note, observed, ◌>>=◌, ◌>>◌}

unfoldable pub classify_error : K8s → Option Error → String
classify_error k none = "none"
classify_error k (some e) =
    if k.is_not_found e
    then "not_found"
    else if k.is_conflict e
    then "conflict"
    else if k.is_timeout e || k.is_server_timeout e
    then "timeout"
    else if k.is_invalid e
    then "validation_error"
    else if k.is_internal_error e
    then "api_error"
    else "other"

-- The class of an error, which the error counter takes; no class for a success.
unfoldable pub error_class : K8s → Option Error → Option String
unfolding classify_error
error_class k none = none
error_class k (some e) = some (classify_error k (some e))

-- One observation of the outcome: the controller, "success" or "error", and the error's class.
module _ {W O : Type 0} where
  unfoldable pub with_metrics : K8s → String → M W O Outcome → M W O Outcome
  unfolding error_class
  with_metrics k controller body = do
    o ← body
    note (
        observed controller (if is_some o.error then "error" else "success")
          (error_class k o.error))
    pure o
