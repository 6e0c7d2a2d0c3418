-- ===== src/Connection.antt =====
-- internal/controller/common/connection.go: from a connection reference to an API client, and the
-- Paused condition.
pub mod Laws
use axonops_operator.Prelude.{
  ℕ, String, Bool, Option, none, some, List, [], ◌∷◌, ◌<>◌, ◌==◌, nat_eq, decimal, or_default, ◌&&◌,
  ◌||◌, if◌then◌else◌,
}
use axonops_operator.Errors.{foreign, wrap, connection_paused, Result, ok, err}
use axonops_operator.K8s.{Condition, K8s, Outcome, done, fail}
use axonops_operator.Http.{
  Connection, Secret, Std, Env, M, pure, get_connection, get_secret, update_status, ◌>>=◌,
}
use axonops_operator.Client.{
  Client, ClientOption, with_timeout, default_token_type, new_client, then_ok,
}

-- 5 minutes, in seconds
abbrev pub drift_check_interval : ℕ
drift_check_interval = 300

unfoldable pub resolve_port : Option ℕ → String → ℕ
resolve_port port protocol = or_default port (if protocol == "http" then 80 else 443)

unfoldable pub build_host_url : String → ℕ → String → Bool → String → String
unfolding decimal
build_host_url custom_host port org_id use_saml protocol =
    let scheme = if protocol == "" then "https" else protocol in
    let standard_port =
      (nat_eq port 443 && scheme == "https") || (nat_eq port 80 && scheme == "http") in
    let name =
      if custom_host == ""
      then (if use_saml then org_id <> ".axonops.cloud" else "dash.axonops.cloud")
      else custom_host in
    let host_part = if standard_port then name else name <> ":" <> decimal port in
    if use_saml
    then scheme <> "://" <> host_part <> "/dashboard"
    else scheme <> "://" <> host_part <> "/" <> org_id

-- `secret.Data[key]`
unfoldable pub secret_data : String → Secret → Option String
secret_data key [] = none
secret_data key ((k, v) ∷ m) = if k == key then some v else secret_data key m

unfoldable pub timeout_options : Std → String → Result (List ClientOption)
timeout_options std timeout = if timeout == "" then ok [] else elim (std.parse_duration timeout) [
  | err e ↦ err (wrap ("invalid timeout " <> std.quote timeout <> " in AxonOpsConnection") e)
  | ok d ↦ ok (with_timeout d ∷ [])
]

-- The part of `ResolveAPIClient` behind the two reads: the connection and the key are there.
unfoldable pub client_of : Std → Connection → String → Result Client
unfolding default_token_type resolve_port build_host_url timeout_options new_client then_ok
client_of std conn api_key =
    let token_type =
      if conn.token_type == "" then default_token_type conn.host else conn.token_type in
    let port = resolve_port conn.port conn.protocol in
    let full_host = build_host_url conn.host port conn.org_id conn.use_saml conn.protocol in
    then_ok (timeout_options std conn.timeout) λ opts.
      elim (new_client std full_host "" conn.org_id api_key token_type conn.tls_skip_verify opts) [
        | err e ↦ err (wrap "failed to create AxonOps client from connection" e)
        | ok c ↦ ok c
      ]

-- The API key of a secret, or what is wrong with it.
unfoldable pub api_key_of : Std → String → String → Secret → Result String
unfolding secret_data
api_key_of std secret_name key secret = elim (secret_data key secret) [
  | none ↦ err (foreign ("secret " <> secret_name <> " does not have key " <> std.quote key))
  | some k ↦
      if k == ""
      then err (foreign ("secret " <> secret_name <> " key " <> std.quote key <> " is empty"))
      else ok k
]

module _ {W O : Type 0} (std : Std) (env : Env W O) where
  client_from_secret : String → Connection → M W O (Result Client)
  unfolding get_secret then_ok
  client_from_secret namespace conn =
      let ref = conn.api_key_ref in
      let key = if ref.key == "" then "api_key" else ref.key in
      let secret_name = namespace <> "/" <> ref.name in
      do
        got ← get_secret env (record { namespace = namespace; name = ref.name })
        pure (elim got [
          | err e ↦ err (wrap ("failed to get secret " <> secret_name) e)
          | ok secret ↦ then_ok (api_key_of std secret_name key secret) (client_of std conn)
        ])

  -- `ResolveAPIClient`
  unfoldable pub resolve_api_client : String → String → M W O (Result Client)
  unfolding get_connection client_from_secret
  resolve_api_client namespace connection_ref =
      if connection_ref == "" then pure (err (foreign "connectionRef must be specified")) else do
        got ← get_connection env (record { namespace = namespace; name = connection_ref })
        elim got [
          | err e ↦ pure (err (wrap "failed to get AxonOpsConnection" e))
          | ok conn ↦
              if conn.pause then pure (err connection_paused) else client_from_secret namespace conn
        ]

abbrev pub paused_condition : Condition
paused_condition = record {
  type = "Paused";
  status = "True";
  observed_generation = 0;
  reason = "ConnectionPaused";
  message = "Referenced AxonOpsConnection is paused";
}

module _ {W O : Type 0} (env : Env W O) where
  -- `HandleConnectionPaused`, with the object's conditions read and written by the caller's lens
  unfoldable pub handle_connection_paused :
      K8s → (O → List Condition) → (List Condition → O → O) → O → M W O Outcome
  unfolding update_status
  handle_connection_paused k conditions with_conditions o = do
    r ←
        update_status env
          (with_conditions (k.set_status_condition (conditions o) paused_condition) o)
    pure (elim r [ ok _ ↦ done | err e ↦ fail (some e) ])

-- `ClearPausedCondition`
unfoldable pub clear_paused_condition : K8s → List Condition → List Condition
clear_paused_condition k cs = k.remove_status_condition cs "Paused"
