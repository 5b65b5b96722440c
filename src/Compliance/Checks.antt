-- ===== src/Compliance/Checks.antt =====
-- From results by check to controls: pkg/compliance/io.go. The results of one check are a list, one for each
-- kind of resource.
pub mod Totals
pub mod Details
use starboard.Prelude.{
  String, ℕ, ◌+◌, suc, Bool, true, false, ◌&&◌, ◌||◌, List, [], ◌∷◌, ◌++◌, Option, none, some, Map,
  lookup, insert, ◌==◌, if◌then◌else◌, nat_eq, length,
}
use starboard.Prelude.Int.{ℤ, pos, leb_ℤ}
use starboard.Compliance.{
  Control, ControlStatus, ReportSpec, ControlCheck, ResultDetails, ScannerCheckResult,
  ControlCheckDetails, SpecDataMapping, fail_status, pass_status, warn_status,
}

abbrev pub CheckResults : Type 0
CheckResults = Map (List ScannerCheckResult)

-- passTotal and failTotal of one control.
pub record Counts : Type 0 where
  pub pass : ℕ
  pub fail : ℕ

unfoldable pub is_pass : ControlStatus → Bool
is_pass status = status == pass_status || status == warn_status

count_detail : ResultDetails → Counts → Counts
unfolding is_pass
count_detail crd n =
    if is_pass crd.status
    then record n { pass = suc n.pass }
    else if crd.status == fail_status
    then record n { fail = suc n.fail }
    else n

count_details : List ResultDetails → Counts → Counts
unfolding count_detail
count_details [] n = n
count_details (crd ∷ details) n = count_details details (count_detail crd n)

count_results : List ScannerCheckResult → Counts → Counts
unfolding count_details
count_results [] n = n
count_results (result ∷ results) n = count_results results (count_details result.details n)

abbrev pub results_of : Option (List ScannerCheckResult) → List ScannerCheckResult
results_of none = []
results_of (some results) = results

count_checks : CheckResults → List String → Counts → Counts
unfolding count_results
count_checks results [] n = n
count_checks results (check_id ∷ check_ids) n =
    count_checks results check_ids (count_results (results_of (lookup check_id results)) n)

-- Without a pass or a failure, the default status of the control counts as one.
with_default : ControlStatus → Counts → Counts
with_default status n =
    if nat_eq n.pass 0 && nat_eq n.fail 0
    then record {
      pass = if status == pass_status then 1 else n.pass;
      fail = if status == fail_status then 1 else n.fail;
    }
    else n

control_check : String → Control → Counts → ControlCheck
control_check control_id control n = record {
  id = control_id;
  name = control.name;
  description = control.description;
  pass_total = n.pass;
  fail_total = n.fail;
  severity = control.severity;
}

-- What is appended for one control; nothing if the specification has no object for it.
check_of : CheckResults → String → List String → Option Control → List ControlCheck
unfolding count_checks with_default control_check
check_of results control_id check_ids none = []
check_of results control_id check_ids (some control) =
    let n = count_checks results check_ids (record { pass = 0; fail = 0 }) in
    control_check control_id control (with_default control.default_status n) ∷ []

checks_of : SpecDataMapping → CheckResults → Map (List String) → List ControlCheck
unfolding check_of
checks_of smd results [] = []
checks_of smd results ((control_id, check_ids) ∷ rest) =
    check_of results control_id check_ids (lookup control_id smd.control_id_control_object)
    ++ checks_of smd results rest

abbrev pub when_any : {A : Type 0} → CheckResults → List A → List A
when_any [] list = []
when_any (r ∷ rs) list = list

unfoldable pub control_checks_by_scanner_checks : SpecDataMapping → CheckResults → List ControlCheck
unfolding checks_of
control_checks_by_scanner_checks smd results =
    when_any results (checks_of smd results smd.control_check_ids)

-- getTotals
unfoldable pub get_totals : List ControlCheck → Counts
get_totals [] = record { pass = 0; fail = 0 }
get_totals (check ∷ checks) =
    let rest = get_totals checks in
    record { pass = check.pass_total + rest.pass; fail = check.fail_total + rest.fail }

-- The loop over the details of a result, up to the configured number of failed entries.
failed_entries : ℤ → List ResultDetails → List ResultDetails → List ResultDetails
unfolding is_pass
failed_entries limit [] entries = entries
failed_entries limit (crd ∷ details) entries =
    let skipped = failed_entries limit details entries in
    let taken = failed_entries limit details (entries ++ crd ∷ []) in
    if leb_ℤ limit (pos (length entries))
    then skipped
    else if is_pass crd.status
    then skipped
    else taken

unless_empty : ScannerCheckResult → List ResultDetails → List ScannerCheckResult
unless_empty result [] = []
unless_empty result (entry ∷ entries) = record result { details = entry ∷ entries } ∷ []

-- createScanCheckResult; `limit` is ComplianceFailEntriesLimit.
unfoldable pub create_scan_check_result : ℤ → List ScannerCheckResult → List ScannerCheckResult
unfolding failed_entries unless_empty
create_scan_check_result limit [] = []
create_scan_check_result limit (result ∷ results) =
    unless_empty result (failed_entries limit result.details [])
    ++ create_scan_check_result limit results

default_entries : List String → List ScannerCheckResult
default_entries [] = []
default_entries (resource ∷ resources) =
    record {
      object_type = resource;
      id = "";
      remediation = "";
      details =
          record {
            name = "";
            namespace = "";
            msg = "Resource do not exist in cluster";
            status = fail_status;
          }
          ∷ [];
    }
    ∷ default_entries resources

abbrev pub resources_of : Option (List String) → List String
resources_of none = []
resources_of (some resources) = resources

create_default_scan_result : SpecDataMapping → Control → String → List ScannerCheckResult
unfolding default_entries
create_default_scan_result smd control control_id =
    if control.default_status == fail_status
    then default_entries (resources_of (lookup control_id smd.control_id_resources))
    else []

details_of_check :
    ℤ
    → SpecDataMapping
    → Control
    → String
    → Option (List ScannerCheckResult)
    → List ScannerCheckResult
unfolding create_default_scan_result
details_of_check limit smd control control_id none =
    create_default_scan_result smd control control_id
details_of_check limit smd control control_id (some results) =
    create_scan_check_result limit results

control_check_details : String → Control → List ScannerCheckResult → List ControlCheckDetails
control_check_details control_id control [] = []
control_check_details control_id control (r ∷ rs) =
    record {
      id = control_id;
      name = control.name;
      description = control.description;
      severity = control.severity;
      scanner_check_result = r ∷ rs;
    }
    ∷ []

details_of_control :
    ℤ → SpecDataMapping → CheckResults → String → Control → List String → List ControlCheckDetails
unfolding details_of_check control_check_details
details_of_control limit smd results control_id control [] = []
details_of_control limit smd results control_id control (check_id ∷ check_ids) =
    control_check_details control_id control
      (details_of_check limit smd control control_id (lookup check_id results))
    ++ details_of_control limit smd results control_id control check_ids

details_if_known :
    ℤ
    → SpecDataMapping
    → CheckResults
    → String
    → List String
    → Option Control
    → List ControlCheckDetails
unfolding details_of_control
details_if_known limit smd results control_id check_ids none = []
details_if_known limit smd results control_id check_ids (some control) =
    details_of_control limit smd results control_id control check_ids

all_details : ℤ → SpecDataMapping → CheckResults → Map (List String) → List ControlCheckDetails
unfolding details_if_known
all_details limit smd results [] = []
all_details limit smd results ((control_id, check_ids) ∷ rest) =
    details_if_known limit smd results control_id check_ids
      (lookup control_id smd.control_id_control_object)
    ++ all_details limit smd results rest

unfoldable pub control_checks_details_by_scanner_checks :
    ℤ → SpecDataMapping → CheckResults → List ControlCheckDetails
unfolding all_details
control_checks_details_by_scanner_checks limit smd results =
    when_any results (all_details limit smd results smd.control_check_ids)
