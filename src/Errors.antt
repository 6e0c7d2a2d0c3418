-- ===== src/Errors.antt =====
-- Go errors as the operator meets them: internal/axonops/client.go (`APIError`) and the wrapping
-- by `fmt.Errorf("...: %w", err)`.
pub mod Safe
use axonops_operator.Prelude.{
  ℕ, String, Bool, Option, none, some, false, true, leb, ◌<>◌, decimal, if◌then◌else◌,
}

-- An error of a dependency is opaque: `foreign` keeps its text.
pub data Error : Type 0 where
  api_error : ℕ → String → Error
  connection_paused : Error
  foreign : String → Error
  wrap : String → Error → Error

pub data Result {ℓ} (A : Type ℓ) : Type ℓ where
  ok : A → Result A
  err : Error → Result A

pub record ApiError : Type 0 where
  pub status_code : ℕ
  pub body : String

-- `errors.As(err, &apiErr)`: the first API error of the chain.
unfoldable pub as_api_error : Error → Option ApiError
as_api_error (api_error n b) = some (record { status_code = n; body = b })
as_api_error connection_paused = none
as_api_error (foreign t) = none
as_api_error (wrap t e) = as_api_error e

-- `errors.Is(err, ErrConnectionPaused)`
unfoldable pub is_connection_paused : Error → Bool
is_connection_paused (api_error n b) = false
is_connection_paused connection_paused = true
is_connection_paused (foreign t) = false
is_connection_paused (wrap t e) = is_connection_paused e

-- `APIError.SafeMessage`
unfoldable pub safe_message : ApiError → String
safe_message e = "AxonOps API error (status " <> decimal e.status_code <> ")"

-- `Error()` of each error
unfoldable pub error_text : Error → String
error_text (api_error n b) = "AxonOps API error (status " <> decimal n <> "): " <> b
error_text connection_paused = "AxonOpsConnection is paused"
error_text (foreign t) = t
error_text (wrap t e) = t <> ": " <> error_text e

-- `APIError.IsRetryable`
unfoldable pub is_retryable : ApiError → Bool
is_retryable e = leb 500 e.status_code

-- `errors.As(err, &apiErr) && apiErr.IsRetryable()`
unfoldable pub retryable : Error → Bool
unfolding as_api_error is_retryable
retryable e = elim (as_api_error e) [ none ↦ false | some a ↦ is_retryable a ]

-- `SafeConditionMsg`
unfoldable pub safe_condition_msg : String → Error → String
unfolding as_api_error safe_message
safe_condition_msg prefix e = elim (as_api_error e) [
  | some a ↦ prefix <> ": " <> safe_message a
  | none ↦ prefix <> ": " <> error_text e
]
