-- ===== src/Actuator.antt =====
-- Package actuator (pkg/actuator): the region switch on Kubernetes.
pub mod Types
pub mod Kube
pub mod Access
pub mod Refs
pub mod Switch
pub mod Crash
pub mod Journal
pub mod Trace
pub mod Shared
