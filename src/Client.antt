-- ===== src/Client.antt =====
-- The AxonOps API client: internal/axonops/client.go.
--
-- Every request goes through `perform`, the sequence that each method of the Go client spells out:
-- make the request, set the headers, send it, and keep the response or wrap the error.
pub mod Escape
pub mod Limit
pub mod Collector
pub mod Silence
pub mod Backup
pub mod Adaptive
pub mod Healthcheck
pub mod Urls
pub mod Laws
pub mod Kafka
pub mod Repair
unfoldable pub use Escape.{path_escape}
use axonops_operator.Prelude.{
  ℕ, zero, suc, String, Bool, true, false, Option, none, some, List, [], ◌∷◌, ◌<>◌, ◌==◌,
  starts_with, contains_nat, is_some, or_default, equal_fold, after_first, before_code,
  if◌then◌else◌, ◌||◌,
}
use axonops_operator.Errors.{Error, api_error, foreign, wrap, Result, ok, err}
use axonops_operator.Json.{Json, fields_of, text_field}
use axonops_operator.Http.{
  Payload, json, form, Request, Response, ℤ, pos, negsuc, Std, Url, Env, M, pure, send, ◌>>=◌,
}

pub record Client : Type 0 where
  pub timeout : ℤ
  pub verbose : Bool
  pub tls_skip_verify : Bool
  pub base_url : String
  pub org_id : String
  pub api_key : String
  pub token_type : String

abbrev pub cloud_hosts : List String
cloud_hosts = "dash.axonops.cloud" ∷ "dash.axonopsdev.com" ∷ []

is_cloud_host : List String → String → Bool
unfolding equal_fold
is_cloud_host [] h = false
is_cloud_host (cloud ∷ hosts) h = if equal_fold h cloud then true else is_cloud_host hosts h

unfoldable pub default_token_type : String → String
unfolding is_cloud_host after_first before_code
default_token_type host =
    let h = before_code b'/' (or_default (after_first "://" host) host) in
    if host == "" then "Bearer" else if is_cloud_host cloud_hosts h then "Bearer" else "AxonApi"

pub data ClientOption : Type 0 where
  with_timeout : ℤ → ClientOption
  with_verbose : ClientOption

pub record ClientOptions : Type 0 where
  pub timeout : ℤ
  pub verbose : Bool

-- 30 seconds, in nanoseconds
abbrev pub default_timeout : ℤ
default_timeout = pos 30_000_000_000

unfoldable pub apply_options : List ClientOption → ClientOptions → ClientOptions
apply_options [] o = o
apply_options (with_timeout d ∷ opts) o = apply_options opts (record o { timeout = d })
apply_options (with_verbose ∷ opts) o = apply_options opts (record o { verbose = true })

-- `o.timeout <= 0` falls back on the default.
unfoldable pub effective_timeout : ℤ → ℤ
effective_timeout (pos zero) = default_timeout
effective_timeout (pos (suc n)) = pos (suc n)
effective_timeout (negsuc n) = default_timeout

-- The host and the scheme, taken apart if the host is a URL, so that its scheme is kept.
unfoldable pub split_host : Std → String → String → Result Url
split_host std host protocol =
    if starts_with host "http://" || starts_with host "https://"
    then (elim (std.parse_url host) [
      | err e ↦ err (wrap "invalid host URL" e)
      | ok u ↦ ok (record { scheme = u.scheme; host = u.host; path = u.path })
    ])
    else ok
        (record { scheme = if protocol == "" then "https" else protocol; host = host; path = "" })

unfoldable pub new_client :
    Std → String → String → String → String → String → Bool → List ClientOption → Result Client
unfolding apply_options effective_timeout default_token_type split_host
new_client std host protocol org_id api_key token_type skip opts =
    let o = apply_options opts (record { timeout = default_timeout; verbose = false }) in
    if host == ""
    then err (foreign "host is required")
    else if org_id == ""
    then err (foreign "orgID is required")
    else if api_key == ""
    then err (foreign "apiKey is required")
    else elim (split_host std host protocol) [
      | err e ↦ err e
      | ok u ↦ ok (record {
        timeout = effective_timeout o.timeout;
        verbose = o.verbose;
        tls_skip_verify = skip;
        base_url = u.scheme <> "://" <> u.host <> u.path;
        org_id = org_id;
        api_key = api_key;
        token_type = if token_type == "" then default_token_type host else token_type;
      })
    ]

-- `setAuthHeader`, on a request that has no header yet
unfoldable pub authorization : Client → String
authorization c = c.token_type <> " " <> c.api_key

-- `checkBodyError`: a top-level "error" of a JSON object makes a success an error.
unfoldable pub check_body_error : Response → Result Response
unfolding text_field fields_of
check_body_error resp = elim resp.value [
  | err e ↦ ok resp
  | ok v ↦ elim (fields_of v) [
    | err e ↦ ok resp
    | ok fs ↦ elim (text_field "error" fs (ok "")) [
      | err e ↦ ok resp
      | ok t ↦ if t == "" then ok resp else err (api_error resp.status_code t)
    ]
  ]
]

-- A status outside the given ones is an `APIError` with the body.
unfoldable pub expect_status : List ℕ → Response → Result Response
expect_status codes resp =
    if contains_nat codes resp.status_code
    then ok resp
    else err (api_error resp.status_code resp.body)

unfoldable pub then_ok {ℓ κ} : {A : Type ℓ} {B : Type κ} → Result A → (A → Result B) → Result B
then_ok (ok a) f = f a
then_ok (err e) f = err e

abbrev pub json_body : Option Json → Option Payload
json_body none = none
json_body (some v) = some (json v)

abbrev pub request : Client → String → String → Option Json → Request
unfolding authorization
request c method url body = record {
  method = method;
  url = url;
  authorization = authorization c;
  content_type = if is_some body then some "application/json" else none;
  body = json_body body;
}

-- A request whose body is a form of one field.
abbrev pub form_request : Client → String → String → String → Json → Request
unfolding authorization
form_request c method url name value = record {
  method = method;
  url = url;
  authorization = authorization c;
  content_type = some "application/x-www-form-urlencoded";
  body = some (form name value);
}

module _ {W O : Type 0} (std : Std) (env : Env W O) where
  -- The part that every method shares: the URL of the request is parsed before it is sent.
  -- `failure` heads the text of a transport error.
  unfoldable pub exchange : String → Request → String → M W O (Result Response)
  unfolding send
  exchange url req failure = elim (std.parse_url url) [
    | err e ↦ pure (err (wrap "failed to create request" e))
    | ok _ ↦ do
      r ← send env req
      elim r [ err e ↦ pure (err (wrap failure e)) | ok resp ↦ pure (ok resp) ]
  ]

  unfoldable pub perform : Client → String → String → Option Json → String → M W O (Result Response)
  unfolding exchange
  perform c method url body failure = exchange url (request c method url body) failure
