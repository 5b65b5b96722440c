-- ===== src/ConfigAudit.antt =====
-- Configuration audits of pkg/configauditreport: the reports, and the API server as far as it keeps them.
-- A cluster report is a report without a namespace.
pub mod Summary
pub mod Store
pub mod Builder
pub mod Resource
pub mod Scans
pub mod Jobs
pub mod Command
pub mod Cleanup
pub mod Outdated
use starboard.Prelude.{
  String, ℕ, Bool, true, List, [], ◌∷◌, ◌+◌, Option, Map, if◌then◌else◌, ◌==◌, Result,
}
use starboard.Prelude.Int.{ℤ}
use starboard.Prelude.Action.{Action}
use starboard.Kube.Object.{Labels, ObjectMeta, ObjectKey, ObjectRef, Object, PodSpec}
use starboard.Kube.Server.{Server, Secret}
use starboard.Report.{Severity, severity_critical, severity_high, severity_medium, severity_low}
use starboard.Vulnerability.Builder.{PluginContext}

pub record ConfigAuditSummary : Type 0 where
  pub critical_count : ℕ
  pub high_count : ℕ
  pub medium_count : ℕ
  pub low_count : ℕ

pub record Check : Type 0 where
  pub id : String
  pub title : String
  pub description : String
  pub severity : Severity
  pub category : String
  pub messages : List String
  pub success : Bool

pub record Scanner : Type 0 where
  pub name : String
  pub vendor : String
  pub version : String

pub record ConfigAuditReportData : Type 0 where
  pub scanner : Scanner
  pub summary : ConfigAuditSummary
  pub checks : List Check
  pub pod_checks : List Check
  pub container_checks : Map (List Check)

pub record ConfigAuditReport : Type 0 where
  pub meta : ObjectMeta
  pub report : ConfigAuditReportData

-- One failed check more, by its severity.
count_check : Check → ConfigAuditSummary → ConfigAuditSummary
count_check check summary =
    if check.success
    then summary
    else if check.severity == severity_critical
    then record summary { critical_count = summary.critical_count + 1 }
    else if check.severity == severity_high
    then record summary { high_count = summary.high_count + 1 }
    else if check.severity == severity_medium
    then record summary { medium_count = summary.medium_count + 1 }
    else if check.severity == severity_low
    then record summary { low_count = summary.low_count + 1 }
    else summary

count_checks : List Check → ConfigAuditSummary → ConfigAuditSummary
unfolding count_check
count_checks [] summary = summary
count_checks (check ∷ checks) summary = count_checks checks (count_check check summary)

-- ConfigAuditSummaryFromChecks
unfoldable pub config_audit_summary_from_checks : List Check → ConfigAuditSummary
unfolding count_checks
config_audit_summary_from_checks checks =
    count_checks checks
      (record { critical_count = 0; high_count = 0; medium_count = 0; low_count = 0 })

-- What the API server does with the reports of one of the two Go types.
pub record ReportApi (S : Type 0) : Type 0 where
  pub get : ObjectKey → S → Result ConfigAuditReport
  pub list : Labels → Option String → S → Result (List ConfigAuditReport)
  pub create : ConfigAuditReport → Action S (Unit {0})
  pub update : ConfigAuditReport → Action S (Unit {0})
  pub delete : ObjectKey → Action S (Unit {0})

pub record AuditServer (S : Type 0) : Type 0 where
  pub base : Server S
  pub reports : ReportApi S
  pub cluster_reports : ReportApi S
  pub get_config_map : ObjectKey → S → Result (Map String)

-- The interface Plugin of the checkers that run as jobs. A plugin reads its settings through its context.
pub record AuditPlugin (S : Type 0) : Type 0 where
  pub get_scan_job_spec : PluginContext → Object → S → Result (PodSpec × List Secret)
  pub parse_config_audit_report_data : PluginContext → String → S → Result ConfigAuditReportData
  pub container_name : String
  pub config_hash : PluginContext → String → S → Result String
  pub supported_kinds : List String
  pub is_applicable : PluginContext → Object → S → Result Bool
