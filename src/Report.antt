-- ===== src/Report.antt =====
-- Security reports: the types of pkg/apis/aquasecurity/v1alpha1 that the operator reads and writes.
use starboard.Prelude.{
  to_upper, String, ℕ, List, Result, ok, err, message, if◌then◌else◌, ◌==◌, ◌||◌,
}
use starboard.Prelude.Int.{ℤ}
use starboard.Kube.Object.{ObjectMeta}

abbrev pub ttl_report_annotation : String
ttl_report_annotation = "starboard.aquasecurity.github.io/report-ttl"

-- Severity is a string with these constants.
abbrev pub Severity : Type 0
Severity = String

abbrev pub severity_critical : Severity
severity_critical = "CRITICAL"

abbrev pub severity_high : Severity
severity_high = "HIGH"

abbrev pub severity_medium : Severity
severity_medium = "MEDIUM"

abbrev pub severity_low : Severity
severity_low = "LOW"

abbrev pub severity_none : Severity
severity_none = "NONE"

abbrev pub severity_unknown : Severity
severity_unknown = "UNKNOWN"

pub record VulnerabilitySummary : Type 0 where
  pub critical_count : ℕ
  pub high_count : ℕ
  pub medium_count : ℕ
  pub low_count : ℕ
  pub unknown_count : ℕ
  pub none_count : ℕ

pub record Artifact : Type 0 where
  pub repository : String
  pub digest : String
  pub tag : String
  pub mime_type : String

pub record Vulnerability : Type 0 where
  pub vulnerability_id : String
  pub resource : String
  pub installed_version : String
  pub fixed_version : String
  pub severity : Severity
  pub title : String

-- Times are nanoseconds since some fixed instant.
pub record VulnerabilityReportData : Type 0 where
  pub update_timestamp : ℤ
  pub scanner : String
  pub registry : String
  pub artifact : Artifact
  pub summary : VulnerabilitySummary
  pub vulnerabilities : List Vulnerability

pub record VulnerabilityReport : Type 0 where
  pub meta : ObjectMeta
  pub report : VulnerabilityReportData

upper_to_severity : String → Result Severity
upper_to_severity s =
    if s == "CRITICAL"
      || s == "HIGH"
      || s == "MEDIUM"
      || s == "LOW"
      || s == "NONE"
      || s == "UNKNOWN"
    then ok s
    else if s == "DANGER"
    then ok severity_critical
    else if s == "WARNING"
    then ok severity_low
    else err (message "unrecognized name literal")

-- StringToSeverity
unfoldable pub string_to_severity : String → Result Severity
unfolding upper_to_severity
string_to_severity name = upper_to_severity (to_upper name)
