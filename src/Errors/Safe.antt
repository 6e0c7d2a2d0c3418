-- ===== src/Errors/Safe.antt =====
-- What status condition messages show of an error: internal/controller/common/connection.go.
use mathlib.Core.Option
use axonops_operator.Prelude.{String, ◌≡◌, refl, ap, none, arith}
use axonops_operator.Errors.{
  Error, api_error, connection_paused, foreign, wrap, as_api_error, retryable, safe_condition_msg,
}

-- The same error, had the API answered with another body.
abbrev pub with_body : String → Error → Error
with_body b (api_error n _) = api_error n b
with_body b connection_paused = connection_paused
with_body b (foreign t) = foreign t
with_body b (wrap t e) = wrap t (with_body b e)

-- An error whose chain holds no API error has no body to replace.
with_body_of_none : (b : String) (e : Error) → as_api_error e ≡ none → with_body b e ≡ e
unfolding as_api_error
with_body_of_none b (api_error n c) h = cc
with_body_of_none b connection_paused h = refl
with_body_of_none b (foreign t) h = refl
with_body_of_none b (wrap t e) h = ap (wrap t) (with_body_of_none b e h)

as_api_error-with_body :
    (b : String) (e : Error)
    → Option.map (λ a. a.status_code) (as_api_error (with_body b e))
      ≡ Option.map (λ a. a.status_code) (as_api_error e)
unfolding as_api_error
as_api_error-with_body b (api_error n c) = refl
as_api_error-with_body b connection_paused = refl
as_api_error-with_body b (foreign t) = refl
as_api_error-with_body b (wrap t e) = as_api_error-with_body b e

-- No condition message depends on the body of an API response: replacing the body anywhere in the
-- chain of wrapped errors changes nothing in the message.
pub safe_condition_msg-with_body :
    (prefix b : String) (e : Error)
    → safe_condition_msg prefix (with_body b e) ≡ safe_condition_msg prefix e
unfolding safe_condition_msg
safe_condition_msg-with_body prefix b e =
    ground (arith, as_api_error-with_body b e, with_body_of_none b e)

-- Whether an error is retried does not depend on the body, nor on how often it was wrapped.
pub retryable-wrap : (t b : String) (e : Error) → retryable (wrap t (with_body b e)) ≡ retryable e
unfolding retryable
retryable-wrap t b e = ground (arith, as_api_error-with_body b e)
