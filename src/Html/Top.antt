-- ===== src/Html/Top.antt =====
-- The checks that topNFailedChecksByAffectedWorkloadsCount lists.
use mathlib.Core.List.{Memᴰ}
use starboard.Prelude.{
  String, ℕ, ◌≤◌, ◌<◌, List, [], ◌∷◌, some, Map, map, take, length, lookup, ◌≡◌, ◌↔◌, ◌⊎◌, inl, inr,
  refl, sym, ap, subst, All, arith, Option-cases,
}
use starboard.ConfigAudit.{ConfigAuditReport}
use starboard.Html.{CheckWithCount, count_reports, sort_desc, check_less, top_failed_checks}
use starboard.Html.Order.{take-sort_desc, top-sort_desc, length-take_at_most}
use starboard.Html.Counts.{affected, counted_when_some, counted_when_none}
use starboard.Html.Entries.{count_reports-Kept, Mem-lookup, lookup-Kept}

-- Each check is listed with the number of workloads that it affects.
abbrev pub IsCounted : List ConfigAuditReport → CheckWithCount → Type 0
IsCounted reports config = config.affected_workloads ≡ affected config.check.id reports

-- An identifier is listed, or the list is full of checks that affect at least as many workloads.
abbrev pub ListedOrBelow : List ConfigAuditReport → ℕ → List CheckWithCount → String → Type 0
ListedOrBelow reports n top id =
    ((config : CheckWithCount) × Memᴰ config top × (config.check.id ≡ id))
    ⊎ ((length top ≡ n) × All (λ config. affected id reports ≤ config.affected_workloads) top)

entries-IsCounted :
    (reports : List ConfigAuditReport) (entries : Map CheckWithCount)
    → ((entry : String × CheckWithCount)
        → Memᴰ entry entries
        → Memᴰ entry (count_reports reports []))
    → All (IsCounted reports) (map (λ entry. entry.1) entries)
entries-IsCounted reports [] h = tt
entries-IsCounted reports (entry ∷ entries) h =
    let (found, own) =
      Mem-lookup entry (count_reports reports []) (count_reports-Kept reports [] tt)
        (h entry (Memᴰ.head refl)) in
    (
      counted_when_some entry.1.check.id reports entry.1
          (subst (λ id. lookup id (count_reports reports []) ≡ some entry.1) (sym own) found),
      entries-IsCounted reports entries (λ e m. h e (Memᴰ.tail m)),
    )

Mem-map :
    (entry : String × CheckWithCount) (entries : Map CheckWithCount)
    → Memᴰ entry entries
    → Memᴰ entry.1 (map (λ e. e.1) entries)
Mem-map entry [] m = elim m [ ]
Mem-map entry (e ∷ es) (Memᴰ.head p) = Memᴰ.head (ap (λ x. x.1) p)
Mem-map entry (e ∷ es) (Memᴰ.tail m) = Memᴰ.tail (Mem-map entry es m)

listed_or_below :
    (reports : List ConfigAuditReport) (n : ℕ) (id : String) (config : CheckWithCount)
    (all : List CheckWithCount)
    → config.check.id ≡ id
    → config.affected_workloads ≡ affected id reports
    → Memᴰ config all
    → ListedOrBelow reports n (take n (sort_desc check_less all)) id
listed_or_below reports n id config all own count m = elim (top-sort_desc n config all m) [
  | inl listed ↦ inl (config, listed, own)
  | inr (full, below) ↦ inr (
    full,
    subst (λ a. All (λ d. a ≤ d.affected_workloads) (take n (sort_desc check_less all))) count
        below,
  )
]

-- Whatever the order in which the map of failed checks is visited, no more than n checks are listed, each with
-- the number of its failures among the pods' checks plus that of the reports where it fails in a container;
-- and an identifier with a failure is listed, or else n checks are, each with at least as many.
pub top_failed_checks-ListedOrBelow :
    (range : Map CheckWithCount → Map CheckWithCount) (reports : List ConfigAuditReport) (n : ℕ)
    (id : String)
    → ((checks : Map CheckWithCount) (entry : String × CheckWithCount)
        → Memᴰ entry (range checks) ↔ Memᴰ entry checks)
    → 0 < affected id reports
    → (length (top_failed_checks range reports n) ≤ n)
      × All (IsCounted reports) (top_failed_checks range reports n)
      × ListedOrBelow reports n (top_failed_checks range reports n) id
unfolding top_failed_checks
top_failed_checks-ListedOrBelow range reports n id visits positive =
    let checks = count_reports reports [] in
    let all = map (λ entry. entry.1) (range checks) in
    (
      length-take_at_most n (sort_desc check_less all),
      take-sort_desc (IsCounted reports) n all
          (entries-IsCounted reports (range checks) (λ e. (visits checks e).0)),
      elim (Option-cases (lookup id checks)) [
        | inl fresh ↦ absurd (omega (arith, positive, counted_when_none id reports fresh))
        | inr (config, found) ↦
            let (entry, m, e, own) =
              lookup-Kept id config checks (count_reports-Kept reports [] tt) found in
            let listed = Mem-map entry (range checks) ((visits checks entry).1 m) in
            listed_or_below reports n id config all own (counted_when_some id reports config found)
              (subst (λ c. Memᴰ c all) e listed)
      ],
    )
