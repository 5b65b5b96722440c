-- ===== src/Vulnerability/Controller/Reported.antt =====
-- hasReports against a plain description: which containers have a report of the current spec?
use starboard.Prelude.{
  String, Bool, true, false, ◌&&◌, ◌||◌, ◌≡◌, refl, ◌↔◌, List, [], ◌∷◌, Option, none, some, Map,
  lookup, value, keys, contains, ◌==◌, eq_iff, eq_refl, ok, arith, ok_injective, sym, ap, ◌∙◌,
}
use starboard.Constants.{label_container_name, label_resource_spec_hash}
use starboard.Kube.Object.{ObjectRef}
use starboard.Report.{VulnerabilityReport}
use starboard.Vulnerability.Controller.{
  Controller, add_reported, reported_containers, all_in, same_set, has_reports,
}

abbrev names : String → Option String → Bool
names c none = false
names c (some container) = container == c

-- Some report of the list is of this container and of this pod spec.
unfoldable pub is_reported : String → String → List VulnerabilityReport → Bool
is_reported hash c [] = false
is_reported hash c (report ∷ reports) =
    names c (lookup label_container_name report.meta.labels)
      && hash == value label_resource_spec_hash report.meta.labels
    || is_reported hash c reports

add_reported-contains :
    (hash c : String) (report : VulnerabilityReport) (actual : List String)
    → contains (add_reported hash report actual) c ≡ (
        contains actual c
        || names c (lookup label_container_name report.meta.labels)
          && hash == value label_resource_spec_hash report.meta.labels)
unfolding add_reported contains
add_reported-contains hash c report actual = ground arith

reported_containers-contains :
    (hash c : String) (list : List VulnerabilityReport) (actual : List String)
    → contains (reported_containers hash list actual) c
      ≡ (contains actual c || is_reported hash c list)
unfolding reported_containers is_reported
reported_containers-contains hash c [] actual = ground arith
reported_containers-contains hash c (report ∷ list) actual = ground (
  arith,
  reported_containers-contains hash c list (add_reported hash report actual),
  add_reported-contains hash c report actual,
)

all_in_sound :
    (xs set : List String)
    → all_in xs set ≡ true
    → (c : String) → contains xs c ≡ true
    → contains set c ≡ true
unfolding all_in contains
all_in_sound [] set h c m = cc
all_in_sound (x ∷ xs) set h c m = ground (arith, eq_iff x c, all_in_sound xs set (ground arith) c)

all_in_complete :
    (xs set : List String)
    → ((c : String) → contains xs c ≡ true → contains set c ≡ true)
    → all_in xs set ≡ true
unfolding all_in contains
all_in_complete [] set h = refl
all_in_complete (x ∷ xs) set h =
    ground (arith, eq_refl x, h x, all_in_complete xs set (λ c m. h c (ground arith)))

same_set_sound :
    (xs ys : List String) → same_set xs ys ≡ true → (c : String) → contains xs c ≡ contains ys c
unfolding same_set
same_set_sound xs ys h c =
    ground (arith, all_in_sound xs ys (ground arith) c, all_in_sound ys xs (ground arith) c)

same_set_complete :
    (xs ys : List String) → ((c : String) → contains xs c ≡ contains ys c) → same_set xs ys ≡ true
unfolding same_set
same_set_complete xs ys h =
    ground
      (arith, all_in_complete xs ys (λ c m. sym (h c) ∙ m), all_in_complete ys xs (λ c m. h c ∙ m))

has_reports_at :
    {S : Type 0} (r : Controller S) (owner : ObjectRef) (hash : String) (images : Map String)
    (s : S) (list : List VulnerabilityReport)
    → r.read_writer.find_by_owner owner s ≡ ok list
    → has_reports r owner hash images s
      ≡ ok (same_set (reported_containers hash list []) (keys images))
unfolding has_reports
has_reports_at r owner hash images s list found = rw found

-- hasReports is true exactly when, for each name, the pod has a container of that name if and only if the
-- owner has a report of it for this pod spec: none is missing, and there is none of another container.
pub has_reports_iff :
    {S : Type 0} (r : Controller S) (owner : ObjectRef) (hash : String) (images : Map String)
    (s : S) (list : List VulnerabilityReport)
    → r.read_writer.find_by_owner owner s ≡ ok list
    → (has_reports r owner hash images s ≡ ok true)
      ↔ ((c : String) → is_reported hash c list ≡ contains (keys images) c)
unfolding contains
has_reports_iff r owner hash images s list found = (
  λ h c.
      sym (reported_containers-contains hash c list [])
      ∙ same_set_sound _ _
          (ok_injective (sym (has_reports_at r owner hash images s list found) ∙ h)) c,
  λ h.
      has_reports_at r owner hash images s list found
      ∙ ap ok (same_set_complete _ _ (λ c. reported_containers-contains hash c list [] ∙ h c)),
)
