-- ===== src/Platform/Workloads/Dashboard.antt =====
-- `ensureDashboardDeployment` of internal/controller/axonopsplatform_controller.go.
use axonops_operator.Prelude.{
  ℕ, String, true, Option, none, some, List, [], ◌∷◌, ◌++◌, nat_eq, if◌then◌else◌,
}
use axonops_operator.ConfigHash.{merge_annotations_with_checksum}
use axonops_operator.Platform.Objects.{
  Volume, VolumeMount, Container, DeploymentSpec, config_map, http_get, ProbeAction,
}
use axonops_operator.Platform.Types.{
  Platform, AxonDashboardComponent, component_dashboard, component_name, key_in, lookup,
  build_labels, build_selector_labels,
}
use axonops_operator.Platform.Cluster.{Cluster, Tools, Step, deployment, apply_object}
use axonops_operator.Platform.Secrets.{owned}
use axonops_operator.Platform.Workloads.{image_of, pull_policy_of, container_port, probe, mount}

unfoldable pub replicas_of : Option ℕ → ℕ
replicas_of none = 1
replicas_of (some n) = if nat_eq n 0 then 1 else n

unfoldable pub dashboard_mounts : AxonDashboardComponent → List VolumeMount
dashboard_mounts dash = (mount "config" "/etc/axonops" true ∷ []) ++ dash.base.extra_volume_mounts

unfoldable pub dashboard_volumes : Platform → AxonDashboardComponent → List Volume
dashboard_volumes p dash =
    (record { name = "config"; source = config_map (component_name p component_dashboard) } ∷ [])
    ++ dash.base.extra_volumes

abbrev root : ProbeAction
root = http_get "/" "http"

unfoldable pub dashboard_container : Platform → AxonDashboardComponent → Container
unfolding image_of dashboard_mounts
dashboard_container p dash = record {
  name = "axon-dash";
  image =
      image_of p dash.base "registry.axonops.com/axonops-public/axonops-docker/axon-dash" "2.0.28";
  image_pull_policy = pull_policy_of dash.base;
  command = [];
  args = [];
  security_context = none;
  env = dash.base.env;
  ports = container_port "http" 3000 ∷ [];
  startup_probe = none;
  liveness_probe = some (probe root 10 10 5 0 3);
  readiness_probe = some (probe root 5 5 3 0 3);
  resources = dash.base.resources;
  volume_mounts = dashboard_mounts dash;
}

unfoldable pub dashboard_spec : Platform → AxonDashboardComponent → String → DeploymentSpec
unfolding build_labels build_selector_labels merge_annotations_with_checksum replicas_of
    dashboard_container dashboard_volumes
dashboard_spec p dash config_hash = record {
  replicas = replicas_of dash.replicas;
  match_labels = build_selector_labels p component_dashboard;
  template = record {
    labels = build_labels p component_dashboard;
    annotations =
        merge_annotations_with_checksum (λ k. lookup k dash.base.annotations) "checksum/config"
          config_hash;
    spec = record {
      service_account_name = component_name p component_dashboard;
      node_selector = dash.base.node_selector;
      automount_service_account_token = none;
      termination_grace_period_seconds = none;
      fs_group = none;
      run_as_user = none;
      affinity = none;
      init_containers = [];
      containers = dashboard_container p dash ∷ [];
      volumes = dashboard_volumes p dash;
    };
  };
}

module _ {W : Type 0} (t : Tools) (c : Cluster W) where
  unfoldable pub ensure_dashboard_deployment :
      Platform → AxonDashboardComponent → String → Step W (Unit {0})
  unfolding apply_object owned build_labels dashboard_spec
  ensure_dashboard_deployment p dash config_hash =
      apply_object c.deployments deployment (key_in p (component_name p component_dashboard)) (
        owned t p λ o. record o {
          labels = build_labels p component_dashboard;
          content = dashboard_spec p dash config_hash;
        })
