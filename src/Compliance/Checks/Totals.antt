-- ===== src/Compliance/Checks/Totals.antt =====
-- The totals of a compliance report against plain counts.
use starboard.Prelude.{
  ◌||◌, String, ℕ, ◌+◌, suc, Bool, true, false, ◌&&◌, ◌≡◌, refl, ap, ◌∙◌, List, [], ◌∷◌, ◌++◌,
  Option, none, some, Map, lookup, ◌==◌, if◌then◌else◌, nat_eq, arith, eq_iff, Bool-cases,
  false≢true, inl, inr, sym,
}
use starboard.Compliance.{
  Control, ControlStatus, ControlCheck, ResultDetails, ScannerCheckResult, fail_status, pass_status,
  SpecDataMapping,
}
use starboard.Compliance.Checks.{
  CheckResults, Counts, is_pass, count_detail, count_details, count_results, count_checks,
  results_of, with_default, control_check, check_of, checks_of, when_any,
  control_checks_by_scanner_checks,
}

-- How many of the details have such a status?
abbrev pub number : (ControlStatus → Bool) → List ResultDetails → ℕ
number p [] = 0
number p (crd ∷ details) = let rest = number p details in if p crd.status then suc rest else rest

-- Warnings are passes.
abbrev pub passes : ControlStatus → Bool
passes status = status == "PASS" || status == "WARN"

abbrev pub is_fail : ControlStatus → Bool
is_fail status = status == "FAIL"

number-append :
    (p : ControlStatus → Bool) (ds es : List ResultDetails)
    → number p (ds ++ es) ≡ number p ds + number p es
number-append p [] es = omega arith
number-append p (d ∷ ds) es = ground (arith, number-append p ds es)

-- All details of some results, and of the results of some checks.
abbrev pub of_results : List ScannerCheckResult → List ResultDetails
of_results [] = []
of_results (result ∷ results) = result.details ++ of_results results

abbrev pub gathered : CheckResults → List String → List ResultDetails
gathered results [] = []
gathered results (check_id ∷ check_ids) =
    of_results (results_of (lookup check_id results)) ++ gathered results check_ids

abbrev added : List ResultDetails → Counts → Counts
added ds n = record { pass = n.pass + number passes ds; fail = n.fail + number is_fail ds }

fail_is_no_pass : passes fail_status ≡ false
fail_is_no_pass = refl

pass_not_fail : (status : ControlStatus) → passes status ≡ true → is_fail status ≡ false
pass_not_fail status h = elim (Bool-cases (is_fail status)) [
  | inl f ↦
      absurd
        (false≢true (sym fail_is_no_pass ∙ (ap passes (sym ((eq_iff status fail_status).0 f)) ∙ h)))
  | inr f ↦ f
]

count_details_lem : (ds : List ResultDetails) (n : Counts) → count_details ds n ≡ added ds n
unfolding count_details count_detail is_pass
count_details_lem [] n = ground arith
count_details_lem (d ∷ ds) n = elim (Bool-cases (passes d.status)) [
  | inl p ↦
      ground
        (arith, p, pass_not_fail d.status p, count_details_lem ds (record n { pass = suc n.pass }))
  | inr p ↦ elim (Bool-cases (is_fail d.status)) [
    | inl f ↦ ground (arith, p, f, count_details_lem ds (record n { fail = suc n.fail }))
    | inr f ↦ ground (arith, p, f, count_details_lem ds n)
  ]
]

added_twice : (ds es : List ResultDetails) (n : Counts) → added es (added ds n) ≡ added (ds ++ es) n
added_twice ds es n = ground (arith, number-append passes ds es, number-append is_fail ds es)

count_results_lem :
    (results : List ScannerCheckResult) (n : Counts)
    → count_results results n ≡ added (of_results results) n
unfolding count_results
count_results_lem [] n = ground arith
count_results_lem (result ∷ results) n =
    count_results_lem results (count_details result.details n)
    ∙ (ap (added (of_results results)) (count_details_lem result.details n)
        ∙ added_twice result.details (of_results results) n)

count_checks_lem :
    (results : CheckResults) (check_ids : List String) (n : Counts)
    → count_checks results check_ids n ≡ added (gathered results check_ids) n
unfolding count_checks
count_checks_lem results [] n = ground arith
count_checks_lem results (check_id ∷ check_ids) n =
    let found = results_of (lookup check_id results) in
    count_checks_lem results check_ids (count_results found n)
    ∙ (ap (added (gathered results check_ids)) (count_results_lem found n)
        ∙ added_twice (of_results found) (gathered results check_ids) n)

-- What a report says of a control: how many details of its checks passed, with the warnings, and how many
-- failed; where there are neither, its default status counts as one.
abbrev pub or_default : Bool → Bool → ℕ → ℕ
or_default none_counted is_default n = if none_counted && is_default then 1 else n

abbrev pub expected : CheckResults → String → List String → Control → ControlCheck
expected results control_id check_ids control =
    let ds = gathered results check_ids in
    let none_counted = nat_eq (number passes ds) 0 && nat_eq (number is_fail ds) 0 in
    record {
      id = control_id;
      name = control.name;
      description = control.description;
      pass_total =
          or_default none_counted (control.default_status == pass_status) (number passes ds);
      fail_total =
          or_default none_counted (control.default_status == fail_status) (number is_fail ds);
      severity = control.severity;
    }

abbrev pub expected_if_known :
    CheckResults → String → List String → Option Control → List ControlCheck
expected_if_known results control_id check_ids none = []
expected_if_known results control_id check_ids (some control) =
    expected results control_id check_ids control ∷ []

abbrev pub all_expected : SpecDataMapping → CheckResults → Map (List String) → List ControlCheck
all_expected smd results [] = []
all_expected smd results ((control_id, check_ids) ∷ rest) =
    expected_if_known results control_id check_ids (lookup control_id smd.control_id_control_object)
    ++ all_expected smd results rest

check_of_lem :
    (results : CheckResults) (control_id : String) (check_ids : List String)
    (control : Option Control)
    → check_of results control_id check_ids control
      ≡ expected_if_known results control_id check_ids control
unfolding check_of with_default control_check
check_of_lem results control_id check_ids none = refl
check_of_lem results control_id check_ids (some control) =
    rw (count_checks_lem results check_ids (record { pass = 0; fail = 0 })) (ground arith)

-- The control checks of a report are, for each entry of the given map from identifiers of controls to checks whose
-- identifier has a control in the mapping, and in the order of the map, the counts over all details of all
-- results of its checks; there are none where no scanner has any result.
pub control_checks_by_scanner_checks_lem :
    (smd : SpecDataMapping) (results : CheckResults)
    → control_checks_by_scanner_checks smd results
      ≡ when_any results (all_expected smd results smd.control_check_ids)
unfolding control_checks_by_scanner_checks checks_of
control_checks_by_scanner_checks_lem smd results = ap (when_any results) (all smd.control_check_ids)
  where
    all : (ids : Map (List String)) → checks_of smd results ids ≡ all_expected smd results ids
    all [] = refl
    all ((control_id, check_ids) ∷ rest) = cc (
      check_of_lem results control_id check_ids (lookup control_id smd.control_id_control_object),
      all rest,
    )
