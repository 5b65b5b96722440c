-- ===== src/Compliance/Checks/Details.antt =====
-- The failed entries of a detail report against a plain description.
use starboard.Prelude.{
  ℕ, ◌+◌, zero, suc, ◌≤◌, ◌≡◌, refl, List, [], ◌∷◌, ◌++◌, length, length-append, nat_eq,
  if◌then◌else◌, arith, append_assoc, append-nil, Bool-cases, inl, inr, ◌∙◌,
}
use starboard.Prelude.Int.{pos}
use starboard.Compliance.{ResultDetails, ScannerCheckResult}
use starboard.Compliance.Checks.Totals.{passes}
use starboard.Compliance.Checks.{is_pass, failed_entries, unless_empty, create_scan_check_result}

abbrev pub take : ℕ → List ResultDetails → List ResultDetails
take zero ds = []
take (suc n) [] = []
take (suc n) (d ∷ ds) = d ∷ take n ds

-- The details that are neither passes nor warnings.
abbrev pub not_passed : List ResultDetails → List ResultDetails
not_passed [] = []
not_passed (d ∷ ds) = let rest = not_passed ds in if passes d.status then rest else d ∷ rest

failed_entries_full :
    (n : ℕ) (details entries : List ResultDetails)
    → n ≤ length entries
    → failed_entries (pos n) details entries ≡ entries
unfolding failed_entries is_pass
failed_entries_full n [] entries full = refl
failed_entries_full n (d ∷ details) entries full =
    ground (arith, failed_entries_full n details entries full)

failed_entries-take :
    (n k : ℕ) (details entries : List ResultDetails)
    → k + length entries ≡ n
    → failed_entries (pos n) details entries ≡ entries ++ take k (not_passed details)
unfolding failed_entries is_pass
failed_entries-take n zero details entries room =
    failed_entries_full n details entries (omega (arith, room)) ∙ simp append-nil
failed_entries-take n (suc k) [] entries room = simp append-nil
failed_entries-take n (suc k) (d ∷ details) entries room = elim (Bool-cases (passes d.status)) [
  | inl p ↦ ground (arith, p, failed_entries-take n (suc k) details entries room)
  | inr p ↦ ground (
    arith,
    p,
    failed_entries-take n k details (entries ++ d ∷ []),
    length-append entries (d ∷ []),
    append_assoc entries (d ∷ []) (take k (not_passed details)),
  )
]

-- A result with these details, if there are any.
abbrev pub listed : ScannerCheckResult → List ResultDetails → List ScannerCheckResult
listed result ds = if nat_eq (length ds) 0 then [] else record result { details = ds } ∷ []

unless_empty-listed :
    (result : ScannerCheckResult) (ds : List ResultDetails)
    → unless_empty result ds ≡ listed result ds
unfolding unless_empty
unless_empty-listed result [] = refl
unless_empty-listed result (d ∷ ds) = ground arith

-- The first failed details of each result; a result without any is left out.
abbrev pub first_failed : ℕ → List ScannerCheckResult → List ScannerCheckResult
first_failed n [] = []
first_failed n (result ∷ results) =
    listed result (take n (not_passed result.details)) ++ first_failed n results

-- With a limit that is not negative, a detail report lists of each result the first details that are neither
-- passes nor warnings, as many as the limit allows, and leaves out a result for which none are listed.
pub create_scan_check_result-take :
    (n : ℕ) (results : List ScannerCheckResult)
    → create_scan_check_result (pos n) results ≡ first_failed n results
unfolding create_scan_check_result
create_scan_check_result-take n [] = refl
create_scan_check_result-take n (result ∷ results) = cc (
  failed_entries-take n n result.details [] (omega arith),
  create_scan_check_result-take n results,
  unless_empty-listed result (take n (not_passed result.details)),
)
