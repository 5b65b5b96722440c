-- ===== src/Tests/Html.antt =====
-- Runs of the data of the HTML reports.
use starboard.Prelude.{
  String, ℕ, ◌≤◌, Bool, true, false, List, [], ◌∷◌, Map, length, All, ◌≡◌, refl, arith, map, insert,
  lookup, contains,
}
use starboard.Tests.Audit.{sample}
use starboard.ConfigAudit.{Check, ConfigAuditReport}
use starboard.Report.{Vulnerability}
use starboard.Html.{
  sort_by_severity, severity_order, CheckWithCount, top_failed_checks, multi_less, sort_desc,
  sort_stable, insert_stable, check_less,
}
use starboard.Html.Top.{IsCounted, ListedOrBelow, top_failed_checks-ListedOrBelow}

abbrev check : String → String → Bool → Check
check id severity success = record {
  id = id;
  title = "";
  description = "";
  severity = severity;
  category = "";
  messages = [];
  success = success;
}

abbrev found : String → Vulnerability
found severity = record {
  vulnerability_id = "";
  resource = "";
  installed_version = "";
  fixed_version = "";
  severity = severity;
  title = "";
}

abbrev audited : List Check → Map (List Check) → ConfigAuditReport
audited pod_checks container_checks =
    let report = sample "Pod" in
    record report {
      report = record report.report {
        pod_checks = pod_checks;
        container_checks = container_checks;
      };
    }

abbrev reports : List ConfigAuditReport
reports =
    audited (check "host-network" "HIGH" false ∷ [])
      (("web", check "root" "MEDIUM" false ∷ []) ∷ ("proxy", check "root" "MEDIUM" false ∷ []) ∷ [])
    ∷ audited (check "host-network" "HIGH" true ∷ check "limits" "LOW" false ∷ [])
        (("db", check "root" "MEDIUM" false ∷ []) ∷ [])
    ∷ []

abbrev stored_order : Map CheckWithCount → Map CheckWithCount
stored_order checks = checks

-- The check that fails in two containers of one workload counts once for it; of two checks that affect one
-- workload, the text of the severity decides, and LOW comes before MEDIUM.
top_three :
    map {B = String × ℕ}
      (λ c. (c.check.id, c.affected_workloads))
      (top_failed_checks stored_order reports 3)
    ≡ ("root", 2) ∷ ("host-network", 1) ∷ ("limits", 1) ∷ []
unfolding top_failed_checks sort_desc sort_stable insert insert_stable check_less multi_less lookup
    contains
top_three = refl

low_before_medium :
    map
      (λ c. c.check.id)
      (top_failed_checks stored_order
        (audited (check "a" "MEDIUM" false ∷ check "b" "LOW" false ∷ []) [] ∷ [])
        2)
    ≡ "b" ∷ "a" ∷ []
unfolding top_failed_checks sort_desc sort_stable insert insert_stable check_less multi_less lookup
low_before_medium = refl

top_one_example :
    (length (top_failed_checks stored_order reports 1) ≤ 1)
    × All (IsCounted reports) (top_failed_checks stored_order reports 1)
    × ListedOrBelow reports 1 (top_failed_checks stored_order reports 1) "root"
top_one_example =
    top_failed_checks-ListedOrBelow stored_order reports 1 "root" (λ checks entry. (λ m. m, λ m. m))
      (omega arith)

-- A vulnerability of severity NONE stands among the critical ones.
none_first :
    map
      (λ v. v.severity)
      (sort_by_severity (found "HIGH" ∷ found "NONE" ∷ found "CRITICAL" ∷ found "LOW" ∷ []))
    ≡ "NONE" ∷ "CRITICAL" ∷ "HIGH" ∷ "LOW" ∷ []
unfolding sort_by_severity sort_stable insert_stable severity_order
none_first = refl
