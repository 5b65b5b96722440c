-- ===== src/Html/Counts.antt =====
-- The counts of failed checks, against the workloads that each check affects.
use starboard.Prelude.{
  String, ℕ, suc, ◌+◌, Bool, false, not, ◌&&◌, ◌||◌, List, [], ◌∷◌, Option, none, some, Map, lookup,
  lookup-insert, contains, ◌==◌, eq_iff, if◌then◌else◌, ◌≡◌, refl, ap, ◌∙◌, Bool-cases, inl, inr,
  arith,
}
use starboard.ConfigAudit.{Check, ConfigAuditReport}
use starboard.Html.{
  CheckWithCount, one_more, count_failed, count_pod_checks, count_container_check, count_container,
  count_containers, count_reports,
}

-- How many of the checks are of the identifier and failed?
abbrev pub failures : String → List Check → ℕ
failures id [] = 0
failures id (check ∷ checks) =
    let rest = failures id checks in if not check.success && check.id == id then suc rest else rest

-- Did a check of the identifier fail, in a container, or in any of them?
abbrev pub fails : String → List Check → Bool
fails id [] = false
fails id (check ∷ checks) = (not check.success && check.id == id) || fails id checks

abbrev pub fails_somewhere : String → Map (List Check) → Bool
fails_somewhere id [] = false
fails_somewhere id (container ∷ containers) = fails id container.1 || fails_somewhere id containers

abbrev pub one_if : Bool → ℕ
one_if b = if b then 1 else 0

-- A report counts once for each failed check of the pod, and once for its containers.
abbrev pub affected : String → List ConfigAuditReport → ℕ
affected id [] = 0
affected id (report ∷ reports) =
    failures id report.report.pod_checks
    + one_if (fails_somewhere id report.report.container_checks)
    + affected id reports

abbrev count_of : Option CheckWithCount → ℕ
count_of none = 0
count_of (some config) = config.affected_workloads

-- What the map has counted for the identifier.
abbrev pub tally : String → Map CheckWithCount → ℕ
tally id checks = count_of (lookup id checks)

count_of-one_more :
    (check : Check) (o : Option CheckWithCount)
    → (one_more check o).affected_workloads ≡ suc (count_of o)
unfolding one_more
count_of-one_more check none = refl
count_of-one_more check (some config) = refl

tally-count_failed :
    (id : String) (check : Check) (checks : Map CheckWithCount)
    → tally id (count_failed check checks) ≡ one_if (check.id == id) + tally id checks
unfolding count_failed
tally-count_failed id check checks = elim (Bool-cases (check.id == id)) [
  | inl p ↦
      rw
        (
          lookup-insert check.id id (one_more check (lookup check.id checks)) checks,
          p,
          count_of-one_more check (lookup check.id checks),
          (eq_iff _ _).0 p,
        )
        (omega arith)
  | inr p ↦
      rw (lookup-insert check.id id (one_more check (lookup check.id checks)) checks, p)
        (omega arith)
]

tally-count_pod_checks :
    (id : String) (list : List Check) (checks : Map CheckWithCount)
    → tally id (count_pod_checks list checks) ≡ failures id list + tally id checks
unfolding count_pod_checks
tally-count_pod_checks id [] checks = omega arith
tally-count_pod_checks id (check ∷ list) checks = ground (
  arith,
  tally-count_pod_checks id list checks,
  tally-count_pod_checks id list (count_failed check checks),
  tally-count_failed id check checks,
)

-- Is it a failed check of the identifier?
abbrev is_failure : String → Check → Bool
is_failure id check = not check.success && check.id == id

abbrev State : Type 0
State = List String × Map CheckWithCount

-- What the checks of a container add: one, if the identifier is new and fails there.
abbrev Counts : String → Bool → State → State → Type 0
Counts id failed before after =
    (contains after.0 id ≡ (contains before.0 id || failed))
    × (tally id after.1 ≡ one_if (not (contains before.0 id) && failed) + tally id before.1)

Counts_trans :
    (id : String) (b c : Bool) (x y z : State)
    → Counts id b x y
    → Counts id c y z
    → Counts id (b || c) x z
Counts_trans id b c x y z (seen, count) (seen', count') =
    (ground (arith, seen, seen'), ground (arith, seen, count, count'))

count_container_check-Counts :
    (id : String) (check : Check) (state : State)
    → Counts id (is_failure id check) state (count_container_check check state)
unfolding count_container_check contains
count_container_check-Counts id check (seen, checks) =
    let same = λ (e : check.id ≡ id). ap (contains seen) e in
    let counted = tally-count_failed id check checks in
    (ground (arith, same, eq_iff check.id id), ground (arith, same, counted, eq_iff check.id id))

count_container-Counts :
    (id : String) (list : List Check) (state : State)
    → Counts id (fails id list) state (count_container list state)
unfolding count_container
count_container-Counts id [] state = (ground arith, ground arith)
count_container-Counts id (check ∷ list) state =
    Counts_trans id (is_failure id check) (fails id list) state (count_container_check check state)
      (count_container list (count_container_check check state))
      (count_container_check-Counts id check state)
      (count_container-Counts id list (count_container_check check state))

count_containers-Counts :
    (id : String) (containers : Map (List Check)) (state : State)
    → Counts id (fails_somewhere id containers) state (count_containers containers state)
unfolding count_containers
count_containers-Counts id [] state = (ground arith, ground arith)
count_containers-Counts id (container ∷ containers) state =
    Counts_trans id (fails id container.1) (fails_somewhere id containers) state
      (count_container container.1 state)
      (count_containers containers (count_container container.1 state))
      (count_container-Counts id container.1 state)
      (count_containers-Counts id containers (count_container container.1 state))

-- The map has counted for every identifier what it affects.
pub tally-count_reports :
    (id : String) (reports : List ConfigAuditReport) (checks : Map CheckWithCount)
    → tally id (count_reports reports checks) ≡ affected id reports + tally id checks
unfolding count_reports contains
tally-count_reports id [] checks = omega arith
tally-count_reports id (report ∷ reports) checks =
    let pods = count_pod_checks report.report.pod_checks checks in
    let all = count_containers report.report.container_checks ([], pods) in
    let rest = tally-count_reports id reports all.1 in
    let (_, here) = count_containers-Counts id report.report.container_checks ([], pods) in
    let pod = tally-count_pod_checks id report.report.pod_checks checks in
    rest ∙ omega (arith, here, pod)

-- What a map that started empty says of an identifier.
pub counted_when_some :
    (id : String) (reports : List ConfigAuditReport) (config : CheckWithCount)
    → lookup id (count_reports reports []) ≡ some config
    → config.affected_workloads ≡ affected id reports
unfolding lookup
counted_when_some id reports config h =
    omega (arith, tally-count_reports id reports [], ap count_of h)

pub counted_when_none :
    (id : String) (reports : List ConfigAuditReport)
    → lookup id (count_reports reports []) ≡ none
    → affected id reports ≡ 0
unfolding lookup
counted_when_none id reports h = omega (arith, tally-count_reports id reports [], ap count_of h)
