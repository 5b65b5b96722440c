-- ===== src/Tests.antt =====
-- Runs of the model on small clusters.
pub mod Data
pub mod Server
pub mod Scans
pub mod Operator
pub mod Policy
pub mod Audit
pub mod Slot
pub mod ConfigAudit
pub mod AuditJobs
pub mod Benchmark
pub mod Limited
pub mod Docker
pub mod Html
pub mod Vulnerability
pub mod Compliance
pub mod Kube
