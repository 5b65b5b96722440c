-- ===== src/Tests/Compliance.antt =====
-- A specification of one control on the reports of two workloads.
use starboard.Prelude.{String, true, false, ◌≡◌, [], ◌∷◌, List, none, ok, lookup}
use starboard.Prelude.Int.{ℤ, pos}
use starboard.Compliance.{Control, ReportSpec, ResultDetails, ScannerCheckResult, SpecDataMapping}
use starboard.Compliance.Mapper.{
  Check, ConfigAuditReport, config_audit_reports, config_audit_map_report_data, details_in,
  of_reports, config_audit_map_report_data-details,
}
use starboard.Compliance.Checks.{
  CheckResults, resources_of, when_any, control_checks_by_scanner_checks, create_scan_check_result,
}
use starboard.Compliance.Checks.Totals.{all_expected, control_checks_by_scanner_checks_lem}
use starboard.Compliance.Checks.Details.{first_failed, create_scan_check_result-take}
use starboard.Compliance.Spec.{
  populate_spec_data_to_maps, checks_with, populate_spec_data_to_maps-checks,
}
use starboard.Compliance.Report.{ComplianceReport, ComplianceServer}
use starboard.Tests.Data.{meta_of, missing}

abbrev capabilities : Control
capabilities = record {
  id = "1.0";
  name = "Capabilities";
  description = "";
  kinds = "Workload" ∷ [];
  scanner = "config-audit";
  checks = "KSV003" ∷ "KSV004" ∷ [];
  severity = "MEDIUM";
  default_status = "PASS";
}

abbrev nsa : ReportSpec
nsa = record {
  name = "NSA";
  description = "Guidance";
  cron = "0 */3 * * *";
  version = "1.0";
  controls = capabilities ∷ [];
}

abbrev check_of : Check
check_of = record {
  id = "KSV003";
  remediation = "drop them";
  messages = "keeps all" ∷ [];
  success = false;
}

abbrev audits : List ConfigAuditReport
audits =
    record {
      meta = meta_of "web" [] [] none;
      checks = check_of ∷ record check_of { id = "KSV004"; success = true } ∷ [];
    }
    ∷ record { meta = meta_of "shop" [] [] none; checks = check_of ∷ [] }
    ∷ []

abbrev failed : String → ResultDetails
failed name = record { name = name; namespace = "prod"; msg = "keeps all"; status = "FAIL" }

abbrev web_results : List ScannerCheckResult
web_results =
    record {
      object_type = "Pod";
      id = "KSV003";
      remediation = "";
      details = failed "web" ∷ failed "shop" ∷ [];
    }
    ∷ []

abbrev results : CheckResults
results = ("KSV003", web_results) ∷ []

abbrev as_added : List String → List String
as_added names = names

abbrev smd : SpecDataMapping
smd = record {
  scanner_resource_list_names = [];
  control_id_control_object = ("1.0", capabilities) ∷ [];
  control_check_ids = ("1.0", "KSV003" ∷ []) ∷ [];
  control_id_resources = [];
}

mapper_example :
    details_in (lookup "KSV003" (config_audit_map_report_data "Pod" (config_audit_reports audits)))
    ≡ of_reports "KSV003" audits
mapper_example = config_audit_map_report_data-details "Pod" "KSV003" audits

spec_example :
    resources_of (lookup "1.0" (populate_spec_data_to_maps as_added nsa).control_check_ids)
    ≡ checks_with as_added "1.0" (capabilities ∷ [])
spec_example = populate_spec_data_to_maps-checks as_added "1.0" nsa

totals_example :
    control_checks_by_scanner_checks smd results
    ≡ when_any results (all_expected smd results smd.control_check_ids)
totals_example = control_checks_by_scanner_checks_lem smd results

details_example : create_scan_check_result (pos 1) (web_results) ≡ first_failed 1 (web_results)
details_example = create_scan_check_result-take 1 (web_results)

abbrev stored : ComplianceReport
stored = record {
  meta = meta_of "nsa" [] [] none;
  creation_timestamp = pos 5;
  spec = nsa;
  status = record {
    update_timestamp = pos 10;
    summary = record { pass = 0; fail = 0 };
    control_checks = [];
  };
}

-- A server whose state is the time.
abbrev clock : ComplianceServer ℤ
clock = record {
  list_objects = λ type labels s. ok (config_audit_reports audits);
  get_report = λ name s. ok stored;
  get_detail_report = λ name s. missing;
  create_detail_report = λ report s. (ok tt, s);
  update_detail_report = λ report s. (ok tt, s);
  update_status = λ report s. (ok tt, s);
  now = λ s. s;
}
