-- ===== src/Controller.antt =====
-- internal/controller: what a scenario asks for, how it is written, and what is reported of it.
pub mod Examples
pub mod Tests
pub mod Backends
pub mod Secrets
pub mod Conversion
pub mod Resources
pub mod Validation
pub mod Workload
pub mod Desired
pub mod Apply
pub mod Finalizer
pub mod Identity
pub mod Status
pub mod Cluster
pub mod Reconcile
