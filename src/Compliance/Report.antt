-- ===== src/Compliance/Report.antt =====
-- Mgr of pkg/compliance/io.go: one run makes a compliance report and its detail report.
use starboard.Prelude.{
  String, Bool, List, [], ◌∷◌, ◌++◌, Option, none, some, Map, lookup, insert, ◌==◌, if◌then◌else◌,
  Result, ok, err, message, wrap, is_not_found, to_lower, dashed, Error, wrapped, nat_eq, ◌&&◌,
}
use starboard.Prelude
use starboard.Prelude.Int.{ℤ}
use starboard.Prelude.Action.{Action, return, fail, reading, handle, ◌>>=◌}
use starboard.Constants.{label_resource_kind}
use starboard.Kube.Object.{ObjectMeta, Labels}
use starboard.Compliance.{
  ReportSpec, ControlCheck, ControlCheckDetails, ScannerCheckResult, SpecDataMapping,
}
use starboard.Compliance.Mapper.{ObjectList, Results, by_scanner}
use starboard.Compliance.Checks.{
  CheckResults, Counts, control_checks_by_scanner_checks, control_checks_details_by_scanner_checks,
  get_totals,
}
use starboard.Compliance.Spec.{populate_spec_data_to_maps}

pub record ReportStatus : Type 0 where
  pub update_timestamp : ℤ
  pub summary : Counts
  pub control_checks : List ControlCheck

-- ClusterComplianceReport
pub record ComplianceReport : Type 0 where
  pub meta : ObjectMeta
  pub creation_timestamp : ℤ
  pub spec : ReportSpec
  pub status : ReportStatus

-- ClusterComplianceDetailReportData, with the name, description and version of its type.
pub record DetailData : Type 0 where
  pub update_timestamp : ℤ
  pub summary : Counts
  pub name : String
  pub description : String
  pub version : String
  pub control_checks : List ControlCheckDetails

pub record DetailReport : Type 0 where
  pub meta : ObjectMeta
  pub report : DetailData

-- The Go types of lists that are asked for; the list of another scanner is nil.
pub data ListType : Type 0 where
  kube_bench_list config_audit_list nil_list : ListType

-- The API server, as far as compliance reports go, and the clock.
pub record ComplianceServer (S : Type 0) : Type 0 where
  pub list_objects : ListType → Labels → S → Result ObjectList
  pub get_report : String → S → Result ComplianceReport
  pub get_detail_report : String → S → Result DetailReport
  pub create_detail_report : DetailReport → Action S (Unit {0})
  pub update_detail_report : DetailReport → Action S (Unit {0})
  pub update_status : ComplianceReport → Action S (Unit {0})
  pub now : S → ℤ

get_obj_list_by_name : String → ListType
get_obj_list_by_name scanner =
    if scanner == "kube-bench"
    then kube_bench_list
    else if scanner == "config-audit"
    then config_audit_list
    else nil_list

-- The inner map of a scanner; a failed list is skipped.
resource_lists : (String → Result ObjectList) → List String → Map ObjectList
resource_lists list [] = []
resource_lists list (name ∷ names) =
    let rest = resource_lists list names in
    elim (list name) [ err e ↦ rest | ok found ↦ (name, found) ∷ rest ]

-- No inner map is made where no list was found.
unless_none : String → Map ObjectList → Map (Map ObjectList)
unless_none scanner [] = []
unless_none scanner (entry ∷ entries) = (scanner, entry ∷ entries) ∷ []

add_results : Results → CheckResults → CheckResults
add_results [] results = results
add_results ((id, result) ∷ rest) results =
    add_results rest (insert id (so_far (lookup id results) ++ result ∷ []) results)
  where
    so_far : Option (List ScannerCheckResult) → List ScannerCheckResult
    so_far none = []
    so_far (some list) = list

results_of_scanner : String → Map ObjectList → CheckResults → Result CheckResults
unfolding add_results
results_of_scanner scanner [] results = ok results
results_of_scanner scanner ((name, list) ∷ lists) results =
    Prelude.◌>>=◌ (by_scanner scanner) (λ map_report_data.
      results_of_scanner scanner lists (add_results (map_report_data name list) results))

check_results_of : Map (Map ObjectList) → CheckResults → Result CheckResults
unfolding results_of_scanner
check_results_of [] results = ok results
check_results_of ((scanner, lists) ∷ rest) results =
    Prelude.◌>>=◌ (results_of_scanner scanner lists results) (check_results_of rest)

-- checkIdsToResults
unfoldable pub check_ids_to_results : Map (Map ObjectList) → Result CheckResults
unfolding check_results_of
check_ids_to_results scanners = check_results_of scanners []

-- `values` lists the members of a set of texts, and `limit` is ComplianceFailEntriesLimit.
module _ {S : Type 0} (server : ComplianceServer S) (values : List String → List String)
    (limit : ℤ) where
  unfoldable pub map_compliance_scanner_to_resource : Map (List String) → S → Map (Map ObjectList)
  unfolding resource_lists unless_none get_obj_list_by_name
  map_compliance_scanner_to_resource [] s = []
  map_compliance_scanner_to_resource ((scanner, names) ∷ rest) s =
      unless_none scanner (
        resource_lists
          (λ name.
            server.list_objects (get_obj_list_by_name scanner) ((label_resource_kind, name) ∷ []) s)
          (values names))
      ++ map_compliance_scanner_to_resource rest s

  shown : Counts → List ControlCheck → List ControlCheck
  shown st checks = if nat_eq st.fail 0 && nat_eq st.pass 0 then [] else checks

  -- createComplianceReport: the report that is there, with its new status.
  unfoldable pub create_compliance_report :
      ReportSpec → Counts → List ControlCheck → S → Result ComplianceReport
  unfolding shown
  create_compliance_report spec st checks s = elim (server.get_report (to_lower spec.name) s) [
    | err e ↦ err (message "compliance crd is missing")
    | ok existing ↦ ok (record existing {
      meta = record existing.meta { labels = [] };
      spec = spec;
      status = record {
        update_timestamp = server.now s;
        summary = st;
        control_checks = shown st checks;
      };
    })
  ]

  detail_data : ReportSpec → SpecDataMapping → CheckResults → Counts → S → DetailData
  detail_data spec smd results st s = record {
    update_timestamp = server.now s;
    summary = st;
    name = to_lower (dashed spec.name "details");
    description = to_lower spec.description;
    version = spec.version;
    control_checks = control_checks_details_by_scanner_checks limit smd results;
  }

  write_detail_report : ReportSpec → DetailData → Action S (Unit {0})
  write_detail_report spec report =
      let name = to_lower (dashed spec.name "details") in
      handle (reading (server.get_detail_report name))
        (λ existing.
          server.update_detail_report
            (record { meta = record existing.meta { labels = [] }; report = report }))
        (λ e.
          if is_not_found e
          then server.create_detail_report (record {
            meta = record {
              name = name;
              namespace = "";
              labels = [];
              annotations = [];
              controller = none;
              deleted = Bool.false;
            };
            report = report;
          })
          else return tt)

  -- createComplianceDetailReport: an error of the lookup other than a missing report is dropped.
  unfoldable pub create_compliance_detail_report :
      ReportSpec → SpecDataMapping → CheckResults → Counts → Action S (Unit {0})
  unfolding detail_data write_detail_report
  create_compliance_detail_report spec smd results st = do
    report ← reading (λ s. ok (detail_data spec smd results st s))
    write_detail_report spec report

  unfoldable pub generate_compliance_report : ReportSpec → Action S (Unit {0})
  unfolding create_compliance_detail_report
  generate_compliance_report spec = do
    let smd = populate_spec_data_to_maps values spec
    results ← reading (λ s.
        check_ids_to_results (map_compliance_scanner_to_resource smd.scanner_resource_list_names s))
    let checks = control_checks_by_scanner_checks smd results
    let st = get_totals checks
    handle (create_compliance_detail_report spec smd results st)
        (λ _. do
          updated ← reading (create_compliance_report spec st checks)
          server.update_status updated)
        (λ e. fail (wrapped "failed to create compliance detail report" e))
