-- ===== src/Tests/Base.antt =====
-- The client, the connection, error messages and image names at concrete inputs.
use mathlib.Core.List.Perm
use axonops_operator.Prelude.{
  ℕ, ◌+◌, ◌<◌, String, ◌≡◌, ◌≢◌, refl, false, true, none, some, List, [], ◌∷◌, length, has_code,
}
use axonops_operator.Errors.{api_error, wrap, ok, safe_condition_msg}
use axonops_operator.Errors.Safe.{safe_condition_msg-with_body}
use axonops_operator.Http.{Connection, Secret, pos}
use axonops_operator.Client.{new_client}
use axonops_operator.Client.Kafka.{topic_url, connector_url}
use axonops_operator.Client.Urls.{occurrences, urls_keep_shape}
use axonops_operator.Client.Limit.{
  Reader, LimitedBody, Answer, take, length-take_le, read, read_all, length-read_all,
}
use axonops_operator.Client.Laws.{new_client_valid}
use axonops_operator.Connection.{
  secret_data, resolve_api_client, api_key_of, client_of, build_host_url,
}
use axonops_operator.Connection.Laws.{connection_read, secret_read, key_name, resolve_api_client-ok}
use axonops_operator.Kafka.Topic.{Topic}
use axonops_operator.Image.{replace_image_registry, resolve_image, replace_image_registry_twice}
use axonops_operator.ConfigHash.{config_data_hash}
use axonops_operator.ConfigHash.Order.{config_data_hash-Perm}
use axonops_operator.Tests.Fake.{fake_std, fake_env, acme_client, world, start}

safe_condition_msg-with_body_example :
    safe_condition_msg "Failed to create topic" (wrap "call" (api_error 403 "token s3cret"))
    ≡ safe_condition_msg "Failed to create topic" (wrap "call" (api_error 403 ""))
safe_condition_msg-with_body_example =
    safe_condition_msg-with_body "Failed to create topic" "token s3cret"
      (wrap "call" (api_error 403 ""))

-- A body of five bytes that is given two at a time.
abbrev five : Reader (List ℕ)
five = record { read = λ n bs. (take n bs, none, []); length-read = λ n bs. length-take_le n bs }

abbrev body : LimitedBody (List ℕ)
body = record { rc = 1 ∷ 2 ∷ 3 ∷ 4 ∷ 5 ∷ []; left = 3; err = none }

cut : (read_all five (2 ∷ 8 ∷ []) body).0 ≡ 1 ∷ 2 ∷ []
unfolding read_all read
cut = refl

length-read_all_example :
    length (read_all five (8 ∷ 8 ∷ []) body).0 + (read_all five (8 ∷ 8 ∷ []) body).1.left ≡ 3
length-read_all_example = length-read_all five (8 ∷ 8 ∷ []) body

abbrev refusal : Answer (List ℕ)
refusal = record { status_code = 500; content_length = pos 99_000_000; body = [] }

new_client_valid_example :
    (◌≢◌ {A = String} "https://dash.axonops.cloud/acme" "")
    × (◌≢◌ {A = String} "acme" "")
    × (◌≢◌ {A = String} "s3cret" "")
    × (acme_client.org_id ≡ "acme")
    × (acme_client.api_key ≡ "s3cret")
    × ((n : ℕ) × (acme_client.timeout ≡ pos n) × (0 < n))
unfolding new_client
new_client_valid_example =
    new_client_valid fake_std "https://dash.axonops.cloud/acme" "" "acme" "s3cret" "Bearer" false []
      {c = acme_client} refl

saml_host : build_host_url "" 8443 "acme" true "" ≡ "https://acme.axonops.cloud:8443/dashboard"
unfolding build_host_url
saml_host = refl

resolve_api_client-ok_example :
    (◌≢◌ {A = String} "conn" "")
    × (conn : Connection) × (secret : Secret) × ((connection_read {O = Topic} fake_std fake_env
          "apps" "conn"
          (start (world none []))).0
        ≡ ok conn)
    × (conn.pause ≡ false)
    × ((secret_read {O = Topic} fake_std fake_env "apps" "conn" conn
          (connection_read {O = Topic} fake_std fake_env "apps" "conn" (start (world none []))).1).0
        ≡ ok secret)
    × (secret_data (key_name conn) secret ≡ some "s3cret")
    × (◌≢◌ {A = String} "s3cret" "")
    × (acme_client.org_id ≡ conn.org_id)
unfolding resolve_api_client api_key_of client_of
resolve_api_client-ok_example =
    resolve_api_client-ok {O = Topic} fake_std fake_env "apps" "conn" (start (world none []))
      {c = acme_client} refl

replace_image_registry_twice_example :
    replace_image_registry
      (replace_image_registry "ghcr.io/axonops/img" "registry.local")
      "registry.local"
    ≡ replace_image_registry "ghcr.io/axonops/img" "registry.local"
unfolding has_code
replace_image_registry_twice_example =
    replace_image_registry_twice "ghcr.io/axonops/img" "registry.local" refl refl

-- A component's own image wins over the global registry.
override : resolve_image "ghcr.io/axonops/img" "registry.local" "mine/img" ≡ "mine/img"
unfolding resolve_image
override = refl

-- Names with a slash, a question mark and a number sign, below a base URL with three slashes.
urls_keep_shape_example :
    (occurrences b'/' (topic_url acme_client "a/b" "x?y#z") ≡ 10)
    × (occurrences b'?' (topic_url acme_client "a/b" "x?y#z") ≡ 0)
    × (occurrences b'#' (topic_url acme_client "a/b" "x?y#z") ≡ 0)
    × (occurrences b'/' (connector_url acme_client "a/b" "../c" "x?y#z") ≡ 11)
    × (occurrences b'?' (connector_url acme_client "a/b" "../c" "x?y#z") ≡ 0)
    × (occurrences b'#' (connector_url acme_client "a/b" "../c" "x?y#z") ≡ 0)
unfolding occurrences
urls_keep_shape_example = urls_keep_shape acme_client "a/b" "../c" "x?y#z"

config_data_hash-Perm_example :
    config_data_hash (λ t. t) (record { keys = "b" ∷ "a" ∷ []; value = λ k. k })
    ≡ config_data_hash (λ t. t) (record { keys = "a" ∷ "b" ∷ []; value = λ k. k })
config_data_hash-Perm_example = config_data_hash-Perm (λ t. t) (λ k. k) (Perm.swap "a" "b" [])

-- Two keys out of order: the text that is hashed is in order, and cut at 32 characters.
hashed :
    config_data_hash (λ t. t) (record { keys = "b" ∷ "a" ∷ []; value = λ k. "1" }) ≡ "a=1\nb=1\n"
unfolding config_data_hash
hashed = refl
