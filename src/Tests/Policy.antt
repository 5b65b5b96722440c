-- ===== src/Tests/Policy.antt =====
-- Two policies and a library in a ConfigMap, and an engine that answers from a table.
use starboard.Report.{string_to_severity}
use starboard.Kube.Kind.{is_workload}
use starboard.Prelude.{
  to_upper, insert, trim_suffix, split, has_prefix, has_suffix, String, Bool, ◌≡◌, refl, List, [],
  ◌∷◌, some, none, Map, lookup, concat, ok, if◌then◌else◌, ◌==◌, length, true, false,
}
use starboard.Policy.{libraries, Policies, policies_by_kind}
use starboard.Policy.Selection.{policies_by_kind-lookup, selected}
use starboard.Policy.Eval.{Engine, ResultSet, object, no_object, text, eval, Verdict}
use starboard.Policy.Eval.Verdicts.{eval-AllJudged, AllJudged}

abbrev pub source : Policies
source =
    ("library.kubernetes.rego", "lib")
    ∷ ("policy.a.kinds", "Workload,Service")
    ∷ ("policy.a.rego", "a")
    ∷ ("policy.b.kinds", "Service")
    ∷ ("policy.b.rego", "b")
    ∷ []

abbrev pub metadata : ResultSet
metadata =
    ((
      "md",
      object (
          ("severity", text "low")
          ∷ ("id", text "KSV1")
          ∷ ("title", text "t")
          ∷ ("type", text "k")
          ∷ ("description", text "d")
          ∷ []),
    )
      ∷ [])
    ∷ []

abbrev pub denied : ResultSet
denied = (("res", object (("msg", text "denied") ∷ [])) ∷ []) ∷ []

abbrev pub rego : {R : Type 0} → Engine String String R
rego = record {
  parse_module = λ name code. ok code;
  package_path = λ code. code;
  compile = λ modules. ok "c";
  query = λ compiler query input.
      if query == "a.deny[res]"
      then ok denied
      else if query == "b.deny[res]"
      then ok ((("res", no_object) ∷ []) ∷ [])
      else if query == "a.warn[res]"
      then ok []
      else if query == "b.warn[res]"
      then ok []
      else ok metadata;
}

abbrev for_services : Map String
for_services = ("policy.a.rego", "a") ∷ ("policy.b.rego", "b") ∷ []

picked : policies_by_kind source "Service" ≡ ok for_services
unfolding policies_by_kind has_suffix has_prefix split is_workload lookup concat trim_suffix insert
picked = refl

lookup_example :
    lookup "policy.b.rego" for_services
    ≡ (if selected source "Service" "policy.b.rego" then lookup "policy.b.rego" source else none)
lookup_example = policies_by_kind-lookup source "Service" for_services picked "policy.b.rego"

abbrev pub verdict : Bool → List String → Verdict
verdict success messages = record {
  metadata = record { id = "KSV1"; title = "t"; severity = "LOW"; type = "k"; description = "d" };
  success = success;
  messages = messages;
}

-- The deny rule of the second policy has a result that is no object, and the policy counts as passed.
abbrev verdicts : List Verdict
verdicts = verdict false ("denied" ∷ []) ∷ verdict true [] ∷ []

judged : eval {R = String} rego source (λ kind. kind) (some "Service") ≡ ok verdicts
unfolding eval policies_by_kind has_suffix has_prefix split is_workload lookup concat trim_suffix
    insert libraries string_to_severity to_upper
judged = refl

eval_example :
    (policies : Map String) × (policies_by_kind source "Service" ≡ ok policies)
    × (length verdicts ≡ length policies)
    × AllJudged {R = String} rego source "Service" policies verdicts
eval_example = eval-AllJudged {R = String} rego source (λ kind. kind) "Service" verdicts judged
