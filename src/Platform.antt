-- ===== src/Platform.antt =====
-- internal/controller/axonopsplatform_controller.go: the controller that installs the AxonOps
-- components in a cluster. Each part is a module below this one.
pub mod Types
pub mod Objects
pub mod Cluster
pub mod Password
pub mod Secrets
pub mod Certificates
pub mod Services
pub mod Cleanup
pub mod Config
pub mod Workloads
pub mod Ingresses
pub mod Steps
pub mod Status
pub mod Components
pub mod Databases
pub mod Reconcile
