-- ===== src/Compliance/Mapper.antt =====
-- The results of a scanner by check: pkg/compliance/mapper.go.
use starboard.Prelude.{
  refl, String, Bool, List, [], ◌∷◌, ◌++◌, Option, none, some, Map, lookup, insert, ◌==◌,
  if◌then◌else◌, Result, ok, err, message, ◌≡◌, lookup-insert, eq_iff, append_assoc, append-nil,
  Bool-cases, Option-cases, inl, inr, sym, eq_refl,
}
use starboard.Kube.Object.{ObjectMeta}
use starboard.Compliance.{ResultDetails, ScannerCheckResult, pass_status, fail_status}

-- The part of a CISKubeBenchReport that is read: its results, those of all sections and tests in order.
pub record KubeBenchResult : Type 0 where
  pub test_number : String
  pub remediation : String
  pub status : String

pub record KubeBenchReport : Type 0 where
  pub meta : ObjectMeta
  pub sections : List (List (List KubeBenchResult))

-- A check of a ConfigAuditReport.
pub record Check : Type 0 where
  pub id : String
  pub remediation : String
  pub messages : List String
  pub success : Bool

pub record ConfigAuditReport : Type 0 where
  pub meta : ObjectMeta
  pub checks : List Check

-- The lists that the API server answers with, of either Go type.
pub data ObjectList : Type 0 where
  kube_bench_reports : List KubeBenchReport → ObjectList
  config_audit_reports : List ConfigAuditReport → ObjectList

abbrev pub Results : Type 0
Results = Map ScannerCheckResult

blank_result : String → String → String → ScannerCheckResult
blank_result obj_type id remediation = record {
  object_type = obj_type;
  id = id;
  remediation = remediation;
  details = [];
}

-- The result so far, or a new one.
result_or : Option ScannerCheckResult → ScannerCheckResult → ScannerCheckResult
result_or none result = result
result_or (some result) _ = result

-- One more detail of a check; the check's first occurrence makes its entry.
unfoldable pub add_detail : String → String → String → ResultDetails → Results → Results
unfolding blank_result result_or
add_detail obj_type id remediation detail results =
    let result = result_or (lookup id results) (blank_result obj_type id remediation) in
    insert id (record result { details = result.details ++ detail ∷ [] }) results

unfoldable pub first_message : List String → String
first_message [] = ""
first_message (text ∷ texts) = text

unfoldable pub detail_of : ObjectMeta → Check → ResultDetails
unfolding first_message
detail_of meta check = record {
  name = meta.name;
  namespace = meta.namespace;
  msg = first_message check.messages;
  status = if check.success then pass_status else fail_status;
}

module _ (obj_type : String) where
  add_kube_bench_result : ObjectMeta → KubeBenchResult → Results → Results
  unfolding add_detail
  add_kube_bench_result meta result =
      add_detail obj_type result.test_number result.remediation
        (record { name = meta.name; namespace = meta.namespace; msg = ""; status = result.status })

  add_kube_bench_results : ObjectMeta → List KubeBenchResult → Results → Results
  unfolding add_kube_bench_result
  add_kube_bench_results meta [] results = results
  add_kube_bench_results meta (result ∷ rest) results =
      add_kube_bench_results meta rest (add_kube_bench_result meta result results)

  add_tests : ObjectMeta → List (List KubeBenchResult) → Results → Results
  unfolding add_kube_bench_results
  add_tests meta [] results = results
  add_tests meta (test ∷ tests) results =
      add_tests meta tests (add_kube_bench_results meta test results)

  add_sections : ObjectMeta → List (List (List KubeBenchResult)) → Results → Results
  unfolding add_tests
  add_sections meta [] results = results
  add_sections meta (section ∷ sections) results =
      add_sections meta sections (add_tests meta section results)

  add_kube_bench_reports : List KubeBenchReport → Results → Results
  unfolding add_sections
  add_kube_bench_reports [] results = results
  add_kube_bench_reports (item ∷ items) results =
      add_kube_bench_reports items (add_sections item.meta item.sections results)

  add_checks : ObjectMeta → List Check → Results → Results
  unfolding add_detail detail_of
  add_checks meta [] results = results
  add_checks meta (check ∷ checks) results =
      add_checks meta checks
        (add_detail obj_type check.id check.remediation (detail_of meta check) results)

  add_config_audit_reports : List ConfigAuditReport → Results → Results
  unfolding add_checks
  add_config_audit_reports [] results = results
  add_config_audit_reports (item ∷ items) results =
      add_config_audit_reports items (add_checks item.meta item.checks results)

  -- kubeBench.mapReportData: nothing of a list of the other type.
  unfoldable pub kube_bench_map_report_data : ObjectList → Results
  unfolding add_kube_bench_reports
  kube_bench_map_report_data (kube_bench_reports items) = add_kube_bench_reports items []
  kube_bench_map_report_data (config_audit_reports items) = []

  -- configAudit.mapReportData
  unfoldable pub config_audit_map_report_data : ObjectList → Results
  unfolding add_config_audit_reports
  config_audit_map_report_data (kube_bench_reports items) = []
  config_audit_map_report_data (config_audit_reports items) = add_config_audit_reports items []

-- byScanner, with the mapReportData of the mapper.
unfoldable pub by_scanner : String → Result (String → ObjectList → Results)
by_scanner scanner =
    if scanner == "kube-bench"
    then ok kube_bench_map_report_data
    else if scanner == "config-audit"
    then ok config_audit_map_report_data
    else err (message "mapper scanner is not supported")

-- What is recorded for a check.
abbrev pub details_in : Option ScannerCheckResult → List ResultDetails
details_in none = []
details_in (some result) = result.details

details_in-add_detail :
    (obj_type id remediation asked : String) (detail : ResultDetails) (results : Results)
    → details_in (lookup asked (add_detail obj_type id remediation detail results)) ≡ (
        if id == asked
        then details_in (lookup asked results) ++ detail ∷ []
        else details_in (lookup asked results))
unfolding add_detail result_or blank_result
details_in-add_detail obj_type id remediation asked detail results =
    elim (Bool-cases (id == asked)) [
      | inl same ↦ rw (sym ((eq_iff id asked).0 same)) (elim (Option-cases (lookup id results)) [
        | inl none_yet ↦ simp (lookup-insert, none_yet, eq_refl)
        | inr (result, known) ↦ simp (lookup-insert, known, eq_refl)
      ])
      | inr other ↦ simp (lookup-insert, other)
    ]

-- How a check came out, under the name of its report; its first message is kept.
abbrev pub head_or_blank : List String → String
head_or_blank [] = ""
head_or_blank (text ∷ texts) = text

abbrev pub outcome : ObjectMeta → Check → ResultDetails
outcome meta check = record {
  name = meta.name;
  namespace = meta.namespace;
  msg = head_or_blank check.messages;
  status = if check.success then "PASS" else "FAIL";
}

first_message-head : (texts : List String) → first_message texts ≡ head_or_blank texts
unfolding first_message
first_message-head [] = refl
first_message-head (text ∷ texts) = refl

detail_of-outcome : (meta : ObjectMeta) (check : Check) → detail_of meta check ≡ outcome meta check
unfolding detail_of
detail_of-outcome meta check = cc (first_message-head check.messages)

-- The details of one check, picked from the reports in their order.
abbrev pub of_check : ObjectMeta → String → List Check → List ResultDetails
of_check meta id [] = []
of_check meta id (check ∷ checks) =
    let rest = of_check meta id checks in if check.id == id then outcome meta check ∷ rest else rest

abbrev pub of_reports : String → List ConfigAuditReport → List ResultDetails
of_reports id [] = []
of_reports id (item ∷ items) = of_check item.meta id item.checks ++ of_reports id items

add_checks-details :
    (obj_type id : String) (meta : ObjectMeta) (checks : List Check) (results : Results)
    → details_in (lookup id (add_checks obj_type meta checks results))
      ≡ details_in (lookup id results) ++ of_check meta id checks
unfolding add_checks
add_checks-details obj_type id meta [] results = simp append-nil
add_checks-details obj_type id meta (check ∷ checks) results = elim (Bool-cases (check.id == id)) [
  | inl same ↦ simp (
    add_checks-details obj_type id meta checks
        (add_detail obj_type check.id check.remediation (detail_of meta check) results),
    details_in-add_detail,
    same,
    append_assoc,
  )
  | inr other ↦ simp (
    add_checks-details obj_type id meta checks
        (add_detail obj_type check.id check.remediation (detail_of meta check) results),
    details_in-add_detail,
    other,
  )
]

add_reports-details :
    (obj_type id : String) (items : List ConfigAuditReport) (results : Results)
    → details_in (lookup id (add_config_audit_reports obj_type items results))
      ≡ details_in (lookup id results) ++ of_reports id items
unfolding add_config_audit_reports
add_reports-details obj_type id [] results = simp append-nil
add_reports-details obj_type id (item ∷ items) results = simp (
  add_reports-details obj_type id items (add_checks obj_type item.meta item.checks results),
  add_checks-details,
  append_assoc,
)

-- The mapper of configuration audits records for each check exactly its outcomes in all the reports, in
-- their order, each under the name of its report: none is lost, doubled or put under another check.
pub config_audit_map_report_data-details :
    (obj_type id : String) (items : List ConfigAuditReport)
    → details_in (lookup id (config_audit_map_report_data obj_type (config_audit_reports items)))
      ≡ of_reports id items
unfolding config_audit_map_report_data lookup
config_audit_map_report_data-details obj_type id items = add_reports-details obj_type id items []
