-- ===== src/Html/Entries.antt =====
-- The map of failed checks has one entry for an identifier, which is that of its check.
use mathlib.Core.List.{Memᴰ}
use starboard.Prelude.{
  String, Bool, true, false, List, [], ◌∷◌, Option, none, some, Map, lookup, insert, lookup-insert,
  contains, ◌==◌, eq_iff, eq_refl, if◌then◌else◌, some_injective, ◌≡◌, refl, sym, ap, ◌∙◌, subst,
  Bool-cases, inl, inr, arith,
}
use starboard.ConfigAudit.{Check, ConfigAuditReport}
use starboard.Html.{
  CheckWithCount, one_more, count_failed, count_pod_checks, count_container_check, count_container,
  count_containers, count_reports,
}

abbrev pub Kept : Map CheckWithCount → Type 0
Kept [] = Unit
Kept (entry ∷ checks) = (lookup entry.0 checks ≡ none) × (entry.1.check.id ≡ entry.0) × Kept checks

insert-Kept :
    (id : String) (config : CheckWithCount) (checks : Map CheckWithCount)
    → config.check.id ≡ id
    → Kept checks
    → Kept (insert id config checks)
unfolding insert lookup
insert-Kept id config [] e _ = (refl, e, tt)
insert-Kept id config (entry ∷ checks) e (fresh, own, rest) = elim (Bool-cases (entry.0 == id)) [
  | inl p ↦ rw p (subst (λ x. lookup x checks ≡ none) ((eq_iff _ _).0 p) fresh, e, rest)
  | inr p ↦ rw p (
    ground (
      arith,
      lookup-insert id entry.0 config checks,
      eq_iff id entry.0,
      eq_iff entry.0 id,
      p,
      fresh,
    ),
    own,
    insert-Kept id config checks e rest,
  )
]

pub lookup-Kept :
    (id : String) (config : CheckWithCount) (checks : Map CheckWithCount)
    → Kept checks
    → lookup id checks ≡ some config
    → ((entry : String × CheckWithCount) × Memᴰ entry checks
        × (entry.1 ≡ config)
        × (config.check.id ≡ id))
unfolding lookup
lookup-Kept id config [] _ h = absurd (ground (arith, h))
lookup-Kept id config (entry ∷ checks) (_, own, rest) h = elim (Bool-cases (entry.0 == id)) [
  | inl p ↦
      let e : entry.1 ≡ config = some_injective (ground (arith, h, p)) in
      (entry, Memᴰ.head refl, e, ap (λ c. c.check.id) (sym e) ∙ own ∙ (eq_iff _ _).0 p)
  | inr p ↦
      let (found, m, e, k) = lookup-Kept id config checks rest (ground (arith, h, p)) in
      (found, Memᴰ.tail m, e, k)
]

one_more_id :
    (check : Check) (o : Option CheckWithCount)
    → ((config : CheckWithCount) → o ≡ some config → config.check.id ≡ check.id)
    → (one_more check o).check.id ≡ check.id
unfolding one_more
one_more_id check none h = refl
one_more_id check (some config) h = h config refl

count_failed-Kept :
    (check : Check) (checks : Map CheckWithCount) → Kept checks → Kept (count_failed check checks)
unfolding count_failed
count_failed-Kept check checks h =
    insert-Kept check.id (one_more check (lookup check.id checks)) checks
      (one_more_id check (lookup check.id checks) (λ c e. (lookup-Kept check.id c checks h e).3)) h

count_pod_checks-Kept :
    (list : List Check) (checks : Map CheckWithCount)
    → Kept checks
    → Kept (count_pod_checks list checks)
unfolding count_pod_checks
count_pod_checks-Kept [] checks h = h
count_pod_checks-Kept (check ∷ list) checks h = elim (Bool-cases check.success) [
  | inl p ↦ rw p (count_pod_checks-Kept list checks h)
  | inr p ↦
      subst (λ b. Kept (count_pod_checks list (if b then checks else count_failed check checks)))
        (sym p)
        (count_pod_checks-Kept list (count_failed check checks) (count_failed-Kept check checks h))
]

if-Kept :
    (b : Bool) (x y : List String × Map CheckWithCount)
    → Kept x.1
    → Kept y.1
    → Kept (if b then x else y).1
if-Kept true x y hx hy = hx
if-Kept false x y hx hy = hy

count_container_check-Kept :
    (check : Check) (state : List String × Map CheckWithCount)
    → Kept state.1
    → Kept (count_container_check check state).1
unfolding count_container_check
count_container_check-Kept check (seen, checks) h =
    if-Kept check.success (seen, checks)
      (if contains seen check.id
        then (seen, checks)
        else (check.id ∷ seen, count_failed check checks))
      h
      (if-Kept (contains seen check.id) (seen, checks) (check.id ∷ seen, count_failed check checks)
        h (count_failed-Kept check checks h))

count_container-Kept :
    (list : List Check) (state : List String × Map CheckWithCount)
    → Kept state.1
    → Kept (count_container list state).1
unfolding count_container
count_container-Kept [] state h = h
count_container-Kept (check ∷ list) state h =
    count_container-Kept list (count_container_check check state)
      (count_container_check-Kept check state h)

count_containers-Kept :
    (containers : Map (List Check)) (state : List String × Map CheckWithCount)
    → Kept state.1
    → Kept (count_containers containers state).1
unfolding count_containers
count_containers-Kept [] state h = h
count_containers-Kept (container ∷ containers) state h =
    count_containers-Kept containers (count_container container.1 state)
      (count_container-Kept container.1 state h)

pub count_reports-Kept :
    (reports : List ConfigAuditReport) (checks : Map CheckWithCount)
    → Kept checks
    → Kept (count_reports reports checks)
unfolding count_reports
count_reports-Kept [] checks h = h
count_reports-Kept (report ∷ reports) checks h =
    let pods = count_pod_checks report.report.pod_checks checks in
    count_reports-Kept reports (count_containers report.report.container_checks ([], pods)).1 (
      count_containers-Kept report.report.container_checks ([], pods)
        (count_pod_checks-Kept report.report.pod_checks checks h))

-- An entry of the map is what its key is set to.
pub Mem-lookup :
    (entry : String × CheckWithCount) (checks : Map CheckWithCount)
    → Kept checks
    → Memᴰ entry checks
    → (lookup entry.0 checks ≡ some entry.1) × (entry.1.check.id ≡ entry.0)
unfolding lookup
Mem-lookup entry [] h m = elim m [ ]
Mem-lookup entry (found ∷ checks) (_, own, rest) (Memᴰ.head e) =
    subst (λ x. (lookup x.0 (found ∷ checks) ≡ some x.1) × (x.1.check.id ≡ x.0)) (sym e)
      (ground (arith, eq_refl found.0), own)
Mem-lookup entry (found ∷ checks) (fresh, own, rest) (Memᴰ.tail m) =
    let (h, own') = Mem-lookup entry checks rest m in
    elim (Bool-cases (found.0 == entry.0)) [
      | inl p ↦
          absurd (ground (arith, subst (λ x. lookup x checks ≡ none) ((eq_iff _ _).0 p) fresh, h))
      | inr p ↦ (ground (arith, h, p), own')
    ]
