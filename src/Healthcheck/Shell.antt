-- ===== src/Healthcheck/Shell.antt =====
-- internal/controller/alerts/axonopshealthcheckshell_controller.go and
-- api/alerts/v1alpha1/axonopshealthcheckshell_types.go: what is proper to shell healthchecks.
use axonops_operator.Prelude.{String, refl, Bool}
use axonops_operator.K8s.{Key, K8s, Outcome}
use axonops_operator.Http.{Std, Env, M}
use axonops_operator.Client.Healthcheck.Records.{HealthcheckShell}
use axonops_operator.Healthcheck.{Healthcheck, Kind, IsLawful, no_integrations}
use axonops_operator.Healthcheck.Steps

pub record ShellSpec : Type 0 where
  pub connection_ref : String
  pub cluster_name : String
  pub cluster_type : String
  pub name : String
  pub script : String
  pub shell : String
  pub interval : String
  pub timeout : String
  pub readonly : Bool

unfoldable pub shell_entry : Healthcheck ShellSpec → HealthcheckShell
shell_entry h = record {
  id = h.status.synced_healthcheck_id;
  name = h.spec.name;
  script = h.spec.script;
  shell = h.spec.shell;
  interval = h.spec.interval;
  timeout = h.spec.timeout;
  readonly = h.spec.readonly;
  integrations = no_integrations;
}

unfoldable pub shell_kind : Kind ShellSpec HealthcheckShell
unfolding shell_entry
shell_kind = record {
  connection_ref = λ s. s.connection_ref;
  cluster_name = λ s. s.cluster_name;
  cluster_type = λ s. s.cluster_type;
  build_healthcheck_entry = shell_entry;
  id_of = λ e. e.id;
  set_id = λ id e. record e { id = id };
  checks = λ p. p.shell_checks;
  with_checks = λ l p. record p { shell_checks = l };
  finalizer = "alerts.axonops.com/shell-healthcheck-finalizer";
  drift_message = "Shell healthcheck was deleted externally; recreating";
  controller = "axonopshealthcheckshell";
}

pub shell_kind-IsLawful : IsLawful shell_kind
unfolding shell_kind
shell_kind-IsLawful = record {
  id-build = λ h. refl;
  id-set_id = λ id e. refl;
  checks-with_checks = λ l p. refl;
  with_checks-checks = λ p. refl;
  with_checks-with_checks = λ l m p. refl;
}

module _ {W : Type 0} (k : K8s) (std : Std) (env : Env W (Healthcheck ShellSpec)) where
  unfoldable pub reconcile_shell : Key → M W (Healthcheck ShellSpec) Outcome
  unfolding Steps.reconcile shell_kind
  reconcile_shell = Steps.reconcile shell_kind k std env

  unfoldable pub delete_shell : Healthcheck ShellSpec → M W (Healthcheck ShellSpec) Outcome
  unfolding Steps.handle_deletion shell_kind
  delete_shell = Steps.handle_deletion shell_kind k std env
