-- ===== src/Vulnerability.antt =====
-- pkg/vulnerabilityreport: building and storing vulnerability reports, and the controller that schedules
-- scans and collects their results.
pub mod Builder
pub mod Store
pub mod Controller
