-- ===== src/Connection/Laws.antt =====
-- What resolving a connection does and promises.
use axonops_operator.Prelude.{
  String, ◌≡◌, ◌≢◌, refl, false, some, ◌<>◌, ◌==◌, eq_iff, arith, if◌then◌else◌,
}
use axonops_operator.Errors.{Result, ok, err}
use axonops_operator.Http.{Connection, Secret, Std, Env, Run}
use axonops_operator.Client.{Client}
use axonops_operator.Connection.{resolve_api_client, secret_data, api_key_of, client_of}

module _ {W O : Type 0} (std : Std) (env : Env W O) where
  -- Resolving a connection reads the cluster, and sends and writes nothing.
  pub calls-resolve_api_client :
      (namespace connection_ref : String) (s : Run W O)
      → (resolve_api_client std env namespace connection_ref s).1.calls ≡ s.calls
  unfolding resolve_api_client
  calls-resolve_api_client namespace connection_ref s = ground arith

api_key_of-ok :
    (std : Std) (name key : String) (secret : Secret) {k : String}
    → api_key_of std name key secret ≡ ok k
    → (secret_data key secret ≡ some k) × (k ≢ "")
unfolding api_key_of
api_key_of-ok std name key secret {k} h = ground (arith, eq_iff k "")

client_of-ok :
    (std : Std) (conn : Connection) (key : String) {c : Client}
    → client_of std conn key ≡ ok c
    → (c.api_key ≡ key) × (c.org_id ≡ conn.org_id)
unfolding client_of
client_of-ok std conn key h = ground arith

-- The key of a secret that a connection names.
abbrev pub key_name : Connection → String
key_name conn = if conn.api_key_ref.key == "" then "api_key" else conn.api_key_ref.key

module _ {W O : Type 0} (std : Std) (env : Env W O) (namespace connection_ref : String) where
  abbrev pub connection_read : Run W O → Result Connection × W
  connection_read s =
      env.get_connection (record { namespace = namespace; name = connection_ref }) s.world

  abbrev pub secret_read : Connection → W → Result Secret × W
  secret_read conn = env.get_secret (record { namespace = namespace; name = conn.api_key_ref.name })

  module _ (s : Run W O) (conn : Connection) (read : (connection_read s).0 ≡ ok conn) where
    with_key :
        (secret : Secret) (key : Result String) {c : Client}
        → (secret_read conn (connection_read s).1).0 ≡ ok secret
        → api_key_of std (namespace <> "/" <> conn.api_key_ref.name) (key_name conn) secret ≡ key
        → (resolve_api_client std env namespace connection_ref s).0 ≡ ok c
        → (k : String) × (key ≡ ok k) × (client_of std conn k ≡ ok c)
    unfolding resolve_api_client
    with_key secret (err e) secret_of wrong h = absurd (ground arith)
    with_key secret (ok k) secret_of right h = (k, refl, ground arith)

    with_secret :
        (got : Result Secret) {c : Client}
        → (secret_read conn (connection_read s).1).0 ≡ got
        → (resolve_api_client std env namespace connection_ref s).0 ≡ ok c
        → (secret : Secret) × (got ≡ ok secret)
          × (secret_data (key_name conn) secret ≡ some c.api_key)
          × (c.api_key ≢ "")
          × (c.org_id ≡ conn.org_id)
    unfolding resolve_api_client
    with_secret (err e) got h = absurd (ground arith)
    with_secret (ok secret) {c} got h =
        let name = namespace <> "/" <> conn.api_key_ref.name in
        let (k, right, client) =
          with_key secret (api_key_of std name (key_name conn) secret) got refl h in
        let (there, given) = api_key_of-ok std name (key_name conn) secret right in
        let (same, org) = client_of-ok std conn k client in
        (secret, refl, rw same there, rw same given, org)

    not_paused :
        {c : Client}
        → (resolve_api_client std env namespace connection_ref s).0 ≡ ok c
        → (connection_ref ≢ "") × (conn.pause ≡ false)
    unfolding resolve_api_client
    not_paused h = ground (arith, eq_iff connection_ref "")

  with_connection :
      (s : Run W O) (got : Result Connection) {c : Client}
      → (connection_read s).0 ≡ got
      → (resolve_api_client std env namespace connection_ref s).0 ≡ ok c
      → (conn : Connection) × (got ≡ ok conn)
  unfolding resolve_api_client
  with_connection s (err e) read h = absurd (ground arith)
  with_connection s (ok conn) read h = (conn, refl)

  -- A client is resolved only from a reference to a connection that is there and not paused, and
  -- from a secret that is there too; its key is what the secret holds under the connection's key
  -- name, or under "api_key", and is not empty; its organisation is the connection's.
  pub resolve_api_client-ok :
      (s : Run W O) {c : Client}
      → (resolve_api_client std env namespace connection_ref s).0 ≡ ok c
      → (connection_ref ≢ "")
        × (conn : Connection) × (secret : Secret) × ((connection_read s).0 ≡ ok conn)
        × (conn.pause ≡ false)
        × ((secret_read conn (connection_read s).1).0 ≡ ok secret)
        × (secret_data (key_name conn) secret ≡ some c.api_key)
        × (c.api_key ≢ "")
        × (c.org_id ≡ conn.org_id)
  resolve_api_client-ok s h =
      let (conn, read) = with_connection s (connection_read s).0 refl h in
      let (given, running) = not_paused s conn read h in
      let (secret, there, key, nonempty, org) =
        with_secret s conn read (secret_read conn (connection_read s).1).0 refl h in
      (given, conn, secret, read, running, there, key, nonempty, org)
