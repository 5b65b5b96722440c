-- ===== src/Compliance.antt =====
-- pkg/compliance: compliance reports, which map the results of scanners to the controls of a specification.
-- The types here are those of pkg/apis/aquasecurity/v1alpha1/compliance_types.go and of mapper.go.
pub mod Mapper
pub mod Checks
pub mod Spec
pub mod Report
pub mod Reconciler
use starboard.Prelude.{String, ℕ, Bool, List, Map, ◌==◌, ◌||◌}
use starboard.Kube.Object.{ObjectMeta}
use starboard.Report.{Severity}

abbrev pub ControlStatus : Type 0
ControlStatus = String

abbrev pub fail_status : ControlStatus
fail_status = "FAIL"

abbrev pub pass_status : ControlStatus
pass_status = "PASS"

abbrev pub warn_status : ControlStatus
warn_status = "WARN"

-- `checks` are the identifiers of the checks of the mapping.
pub record Control : Type 0 where
  pub id : String
  pub name : String
  pub description : String
  pub kinds : List String
  pub scanner : String
  pub checks : List String
  pub severity : Severity
  pub default_status : ControlStatus

pub record ReportSpec : Type 0 where
  pub name : String
  pub description : String
  pub cron : String
  pub version : String
  pub controls : List Control

pub record ControlCheck : Type 0 where
  pub id : String
  pub name : String
  pub description : String
  pub pass_total : ℕ
  pub fail_total : ℕ
  pub severity : Severity

pub record ResultDetails : Type 0 where
  pub name : String
  pub namespace : String
  pub msg : String
  pub status : ControlStatus

pub record ScannerCheckResult : Type 0 where
  pub object_type : String
  pub id : String
  pub remediation : String
  pub details : List ResultDetails

pub record ControlCheckDetails : Type 0 where
  pub id : String
  pub name : String
  pub description : String
  pub severity : Severity
  pub scanner_check_result : List ScannerCheckResult

-- specDataMapping. A set of resources is the list of the texts that were added to it.
pub record SpecDataMapping : Type 0 where
  pub scanner_resource_list_names : Map (List String)
  pub control_id_control_object : Map Control
  pub control_check_ids : Map (List String)
  pub control_id_resources : Map (List String)
