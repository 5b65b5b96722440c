-- ===== src/ConfigAudit/Summary.antt =====
-- The summary of an audit counts the failed checks.
use starboard.Prelude.{
  String, ℕ, ◌+◌, suc, ◌≡◌, not, ◌&&◌, List, [], ◌∷◌, ◌==◌, if◌then◌else◌, arith, eq_iff,
  Bool-cases, inl, inr,
}
use starboard.ConfigAudit.{
  Check, ConfigAuditSummary, count_check, count_checks, config_audit_summary_from_checks,
}

-- How many checks of the severity failed?
abbrev pub failed_of : String → List Check → ℕ
failed_of severity [] = 0
failed_of severity (check ∷ checks) =
    let rest = failed_of severity checks in
    if not check.success && check.severity == severity then suc rest else rest

abbrev Adds : List Check → ConfigAuditSummary → ConfigAuditSummary → Type 0
Adds checks before after =
    (after.critical_count ≡ before.critical_count + failed_of "CRITICAL" checks)
    × (after.high_count ≡ before.high_count + failed_of "HIGH" checks)
    × (after.medium_count ≡ before.medium_count + failed_of "MEDIUM" checks)
    × (after.low_count ≡ before.low_count + failed_of "LOW" checks)

count_check_lem :
    (check : Check) (before : ConfigAuditSummary)
    → Adds (check ∷ []) before (count_check check before)
unfolding count_check
count_check_lem check before = elim (Bool-cases check.success) [
  | inl p ↦ rw p (omega arith, omega arith, omega arith, omega arith)
  | inr p ↦ elim (Bool-cases (check.severity == "CRITICAL")) [
    | inl c ↦ rw (p, (eq_iff _ _).0 c) (omega arith, omega arith, omega arith, omega arith)
    | inr c ↦ elim (Bool-cases (check.severity == "HIGH")) [
      | inl h ↦ rw (p, (eq_iff _ _).0 h) (omega arith, omega arith, omega arith, omega arith)
      | inr h ↦ elim (Bool-cases (check.severity == "MEDIUM")) [
        | inl m ↦ rw (p, (eq_iff _ _).0 m) (omega arith, omega arith, omega arith, omega arith)
        | inr m ↦ elim (Bool-cases (check.severity == "LOW")) [
          | inl l ↦ rw (p, (eq_iff _ _).0 l) (omega arith, omega arith, omega arith, omega arith)
          | inr l ↦ rw (p, c, h, m, l) (omega arith, omega arith, omega arith, omega arith)
        ]
      ]
    ]
  ]
]

count_checks_lem :
    (checks : List Check) (before : ConfigAuditSummary)
    → Adds checks before (count_checks checks before)
unfolding count_checks
count_checks_lem [] before = (omega arith, omega arith, omega arith, omega arith)
count_checks_lem (check ∷ checks) before =
    let (c, h, m, l) = count_check_lem check before in
    let (c', h', m', l') = count_checks_lem checks (count_check check before) in
    (ground (arith, c, c'), ground (arith, h, h'), ground (arith, m, m'), ground (arith, l, l'))

-- Each number of the summary is the number of failed checks of that severity.
pub config_audit_summary_from_checks_lem :
    (checks : List Check)
    → ((config_audit_summary_from_checks checks).critical_count ≡ failed_of "CRITICAL" checks)
      × ((config_audit_summary_from_checks checks).high_count ≡ failed_of "HIGH" checks)
      × ((config_audit_summary_from_checks checks).medium_count ≡ failed_of "MEDIUM" checks)
      × ((config_audit_summary_from_checks checks).low_count ≡ failed_of "LOW" checks)
unfolding config_audit_summary_from_checks
config_audit_summary_from_checks_lem checks =
    let (c, h, m, l) =
      count_checks_lem checks
        (record { critical_count = 0; high_count = 0; medium_count = 0; low_count = 0 }) in
    (omega (arith, c), omega (arith, h), omega (arith, m), omega (arith, l))
