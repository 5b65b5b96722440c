-- ===== src/Html.antt =====
-- The data of the HTML reports: the orders of pkg/vulnerabilityreport/sort.go and pkg/report/sort.go, and the most
-- vulnerable images and the most frequent failed checks of a namespace, of pkg/report/html.go.
mod Order
mod Counts
mod Entries
pub mod Top
use Prim.Native.Char.{code}
use Prim.Native.String
use starboard.Prelude.{
  String, ℕ, suc, Bool, true, false, List, [], ◌∷◌, Option, none, some, Map, lookup, insert,
  contains, map, take, ltb, if◌then◌else◌, ◌==◌,
}
use starboard.Report.{
  VulnerabilityReport, Vulnerability, Severity, severity_critical, severity_high, severity_medium,
  severity_low, severity_unknown,
}
use starboard.ConfigAudit.{Check, ConfigAuditReport}

-- s < t on texts: their bytes are compared from the left, which is the order of the code points.
text_less : String → String → Bool
text_less s String.[] = false
text_less String.[] (String.◌∷◌ d t) = true
text_less (String.◌∷◌ c s) (String.◌∷◌ d t) =
    let rest = text_less s t in
    if ltb (code c) (code d) then true else if ltb (code d) (code c) then false else rest

abbrev pub LessFunc {ℓ} : Type ℓ → Type ℓ
LessFunc A = A → A → Bool

module _ {ℓ} {A : Type ℓ} where
  -- multiSorter.Less, for the functions of OrderedBy, of which there is at least one.
  unfoldable pub multi_less : LessFunc A → List (LessFunc A) → LessFunc A
  multi_less less [] p q = less p q
  multi_less less (next ∷ others) p q =
      let rest = multi_less next others p q in
      if less p q then true else if less q p then false else rest

  -- An item goes before the first that is not to stand before it.
  unfoldable pub insert_stable : LessFunc A → A → List A → List A
  insert_stable less x [] = x ∷ []
  insert_stable less x (y ∷ ys) =
      let rest = insert_stable less x ys in if less y x then y ∷ rest else x ∷ y ∷ ys

  -- sort.Stable
  unfoldable pub sort_stable : LessFunc A → List A → List A
  sort_stable less [] = []
  sort_stable less (x ∷ xs) = insert_stable less x (sort_stable less xs)

  -- SortDesc: the stable sort by sort.Reverse of the sorter.
  unfoldable pub sort_desc : LessFunc A → List A → List A
  sort_desc less xs = sort_stable (λ x y. less y x) xs

-- severityOrder; Go reads 0 for a severity that is not in the map.
unfoldable pub severity_order : Severity → ℕ
severity_order severity =
    if severity == severity_critical
    then 0
    else if severity == severity_high
    then 1
    else if severity == severity_medium
    then 2
    else if severity == severity_low
    then 3
    else if severity == severity_unknown
    then 4
    else 0

-- sort.Stable(BySeverity{...})
unfoldable pub sort_by_severity : List Vulnerability → List Vulnerability
unfolding severity_order
sort_by_severity vulnerabilities =
    sort_stable (λ p q. ltb (severity_order p.severity) (severity_order q.severity)) vulnerabilities

-- SummaryCount
unfoldable pub summary_less : LessFunc VulnerabilityReport
summary_less =
    multi_less (λ p q. ltb p.report.summary.critical_count q.report.summary.critical_count)
      ((λ p q. ltb p.report.summary.high_count q.report.summary.high_count)
        ∷ (λ p q. ltb p.report.summary.medium_count q.report.summary.medium_count)
        ∷ (λ p q. ltb p.report.summary.low_count q.report.summary.low_count)
        ∷ (λ p q. ltb p.report.summary.unknown_count q.report.summary.unknown_count)
        ∷ [])

-- topNImagesBySeverityCount
unfoldable pub top_images : List VulnerabilityReport → ℕ → List VulnerabilityReport
top_images reports n = take n (sort_desc summary_less reports)

pub record CheckWithCount : Type 0 where
  pub check : Check
  pub affected_workloads : ℕ

-- checkCompareFunc; a severity is compared as a text.
unfoldable pub check_less : LessFunc CheckWithCount
unfolding text_less
check_less =
    multi_less (λ p q. ltb p.affected_workloads q.affected_workloads)
      ((λ p q. text_less q.check.severity p.check.severity)
        ∷ (λ p q. text_less q.check.id p.check.id)
        ∷ [])

one_more : Check → Option CheckWithCount → CheckWithCount
one_more check none = record { check = check; affected_workloads = 1 }
one_more check (some config) = record config { affected_workloads = suc config.affected_workloads }

-- What both loops do with a failed check that counts.
count_failed : Check → Map CheckWithCount → Map CheckWithCount
count_failed check checks = insert check.id (one_more check (lookup check.id checks)) checks

count_pod_checks : List Check → Map CheckWithCount → Map CheckWithCount
unfolding count_failed
count_pod_checks [] checks = checks
count_pod_checks (check ∷ rest) checks =
    count_pod_checks rest (if check.success then checks else count_failed check checks)

-- A check of a container; the first part holds the identifiers that alreadyCheckedForWorkload has.
count_container_check : Check → List String × Map CheckWithCount → List String × Map CheckWithCount
unfolding count_failed
count_container_check check (seen, checks) =
    if check.success
    then (seen, checks)
    else if contains seen check.id
    then (seen, checks)
    else (check.id ∷ seen, count_failed check checks)

count_container : List Check → List String × Map CheckWithCount → List String × Map CheckWithCount
unfolding count_container_check
count_container [] state = state
count_container (check ∷ rest) state = count_container rest (count_container_check check state)

count_containers :
    Map (List Check) → List String × Map CheckWithCount → List String × Map CheckWithCount
unfolding count_container
count_containers [] state = state
count_containers (container ∷ rest) state =
    count_containers rest (count_container container.1 state)

pub count_reports : List ConfigAuditReport → Map CheckWithCount → Map CheckWithCount
unfolding count_pod_checks count_containers
count_reports [] checks = checks
count_reports (report ∷ rest) checks =
    count_reports rest
      (count_containers report.report.container_checks
        ([], count_pod_checks report.report.pod_checks checks)).1

-- topNFailedChecksByAffectedWorkloadsCount; `range` is the order in which the map is visited.
unfoldable pub top_failed_checks :
    (range : Map CheckWithCount → Map CheckWithCount)
    → List ConfigAuditReport
    → ℕ
    → List CheckWithCount
unfolding count_reports one_more
top_failed_checks range reports n =
    take n (sort_desc check_less (map (λ entry. entry.1) (range (count_reports reports []))))
