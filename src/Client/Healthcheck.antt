-- ===== src/Client/Healthcheck.antt =====
-- The healthcheck methods of internal/axonops/client.go. The payload holds the checks of all three
-- kinds of a cluster.
pub mod Records
pub mod Decode
use axonops_operator.Prelude.{String, none, some, [], ◌∷◌, ◌<>◌}
use axonops_operator.Errors.{Result}
use axonops_operator.Http.{Response, Std, Env, M, pure, ◌>>=◌}
use axonops_operator.Client.{Client, perform, expect_status, then_ok}
use axonops_operator.Client.Repair.{cluster_path}
use axonops_operator.Client.Healthcheck.Records.{Healthchecks, healthchecks_json}
use axonops_operator.Client.Healthcheck.Decode.{decode_healthchecks}

unfoldable pub healthchecks_url : Client → String → String → String
unfolding cluster_path
healthchecks_url c cluster_type cluster =
    c.base_url <> "/api/v1/healthchecks/" <> cluster_path c cluster_type cluster

module _ {W O : Type 0} (std : Std) (env : Env W O) (c : Client) where
  unfoldable pub get_healthchecks : String → String → M W O (Result Healthchecks)
  unfolding perform expect_status then_ok decode_healthchecks
  get_healthchecks cluster_type cluster = do
    r ←
        perform std env c "GET" (healthchecks_url c cluster_type cluster) none
          "failed to get healthchecks"
    pure (then_ok (then_ok r (expect_status (200 ∷ []))) decode_healthchecks)

  unfoldable pub update_healthchecks : String → String → Healthchecks → M W O (Result Response)
  unfolding perform expect_status then_ok healthchecks_json
  update_healthchecks cluster_type cluster healthchecks = do
    r ←
        perform std env c "PUT" (healthchecks_url c cluster_type cluster)
          (some (healthchecks_json healthchecks)) "failed to update healthchecks"
    pure (then_ok r (expect_status (200 ∷ 204 ∷ [])))
