-- ===== src/Platform/Components.antt =====
-- The part of `Reconcile` of internal/controller/axonopsplatform_controller.go for the server and the
-- dashboard, with the gates before them and the last status update.
pub mod Gates
use axonops_operator.Prelude.{join, String, true, Option, none, some, List, [], ◌∷◌, if◌then◌else◌}
use axonops_operator.Errors.{ok, err}
use axonops_operator.K8s.{Key, K8s, Outcome, done, requeue, fail}
use axonops_operator.Platform.Types.{Platform, server_enabled, dashboard_enabled}
use axonops_operator.Platform.Status.{waiting, Findings, status_changed, final_platform}
use axonops_operator.Platform.Cluster.{
  Cluster, Tools, Step, return, attempt, get_platform, update_status, ◌>>=◌, ◌>>◌,
}
use axonops_operator.Platform.Cleanup.{cleanup_server_resources, cleanup_dashboard_resources}
use axonops_operator.Platform.Steps.{
  reconcile_server, reconcile_dashboard, time_series_ready, search_ready, server_ready,
}

-- The reasons why the databases are not ready.
abbrev pub reasons : Option String → Option String → List String
reasons none none = []
reasons none (some b) = b ∷ []
reasons (some a) none = a ∷ []
reasons (some a) (some b) = a ∷ b ∷ []

module _ {W : Type 0} (k : K8s) (t : Tools) (c : Cluster W) where
  -- Fetch the resource again and write its status, whose failure is only logged; then answer.
  unfoldable pub refetch_status : Key → (Platform → Platform) → Outcome → Step W Outcome
  unfolding get_platform update_status
  refetch_status key change outcome = do
    got ← attempt (get_platform c key)
    elim got [
      | err e ↦ return (fail (k.ignore_not_found e))
      | ok p ↦ do _ ← attempt (update_status c (change p)); return outcome
    ]

  unfoldable pub finish : Key → Findings → Step W Outcome
  unfolding get_platform update_status status_changed final_platform
  finish key f = do
    got ← attempt (get_platform c key)
    elim got [
      | err e ↦ return (fail (k.ignore_not_found e))
      | ok p ↦
          if status_changed f p
          then (do _ ← update_status c (final_platform k f p); return done)
          else return done
    ]

  -- The dashboard, and then the last status update.
  unfoldable pub dashboard_part : Key → Platform → Findings → Step W Outcome
  unfolding dashboard_enabled reconcile_dashboard cleanup_dashboard_resources finish
  dashboard_part key p f = elim p.spec.dashboard [
    | none ↦ do cleanup_dashboard_resources k c p; finish key f
    | some dash ↦
        if dashboard_enabled (some dash)
        then (do
          reconcile_dashboard t c p dash
          finish key (record f { dashboard_reconciled = true }))
        else (do cleanup_dashboard_resources k c p; finish key f)
  ]

  -- The dashboard waits for the server.
  unfoldable pub dashboard_gate : Key → Platform → Findings → Step W Outcome
  unfolding dashboard_enabled server_ready waiting refetch_status dashboard_part
  dashboard_gate key p f =
      if dashboard_enabled p.spec.dashboard
      then (do
        reason ← server_ready k c p
        elim reason [
          | none ↦ dashboard_part key p f
          | some why ↦
              refetch_status key (waiting k f.certificate "DashboardReady" "WaitingForServer" why)
                (requeue 10)
        ])
      else dashboard_part key p f

  unfoldable pub server_part : Key → Platform → Findings → Step W Outcome
  unfolding server_enabled reconcile_server cleanup_server_resources dashboard_gate
  server_part key p f = elim p.spec.server [
    | none ↦ do cleanup_server_resources k c p; dashboard_gate key p f
    | some srv ↦
        if server_enabled (some srv)
        then (do
          reconcile_server t c p srv
          dashboard_gate key p (record f { server_reconciled = true }))
        else (do cleanup_server_resources k c p; dashboard_gate key p f)
  ]

  -- The server waits for the databases.
  unfoldable pub server_gate : Key → Platform → Findings → Step W Outcome
  unfolding server_enabled time_series_ready search_ready join waiting refetch_status server_part
  server_gate key p f =
      if server_enabled p.spec.server
      then (do
        ts ← time_series_ready k c p
        search ← search_ready k c p
        elim (reasons ts search) [
          | [] ↦ server_part key p f
          | why ∷ whys ↦
              refetch_status key
                (waiting k f.certificate "ServerReady" "WaitingForDatabases"
                  (join "; " (why ∷ whys)))
                (requeue 10)
        ])
      else server_part key p f
