-- ===== src/Tests.antt =====
-- Runs of the models on concrete data, and the theorems at concrete inputs.
mod Fake
mod Base
mod Topics
mod Acls
mod Connectors
mod Repairs
mod RepairRepeats
mod Collectors
mod Silences
mod Backups
mod Adaptive
mod Healthchecks
mod FakeCluster
mod Platforms
mod Workloads
