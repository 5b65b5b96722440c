-- ===== src/Policy/Eval.antt =====
-- Evaluating the policies for a resource, and what the values that Rego binds say. The engine for Rego
-- (github.com/open-policy-agent/opa) is not part of the program: it is a parameter.
pub mod Bindings
pub mod Verdicts
use starboard.Prelude.{
  String, Bool, true, false, ◌≡◌, List, [], ◌∷◌, ◌++◌, Option, none, some, Map, lookup, insert,
  ◌==◌, if◌then◌else◌, concat, nat_eq, length, is_some, Result, ok, err, message, panicked, ◌>>=◌,
  wrap, or_error,
}
use starboard.Report.{Severity, string_to_severity}
use starboard.Policy.{Policies, libraries, policies_by_kind}

-- interface{} in the values of a rule: all that the code asks is whether it is nil or a text.
pub data Value : Type 0 where
  null : Value
  text : String → Value
  other_value : Value

abbrev pub Fields : Type 0
Fields = Map Value

-- What a variable is bound to: an object, or any other value.
pub data Binding : Type 0 where
  object : Fields → Binding
  no_object : Binding

-- rego.ResultSet: the bindings of each result.
abbrev pub ResultSet : Type 0
ResultSet = List (Map Binding)

pub record Metadata : Type 0 where
  pub id : String
  pub title : String
  pub severity : Severity
  pub type : String
  pub description : String

-- policy.Result
pub record Verdict : Type 0 where
  pub metadata : Metadata
  pub success : Bool
  pub messages : List String

-- requiredStringValue
unfoldable pub required_string_value : Fields → String → Result String
required_string_value values key = elim (lookup key values) [
  | none ↦ err (message "required key not found")
  | some null ↦ err (message "required value is nil for key")
  | some other_value ↦ err (message "expected string got another type for key")
  | some (text s) ↦ if s == "" then err (message "required value is blank for key") else ok s
]

-- NewMetadata; a nil map is `none`.
unfoldable pub new_metadata : Option Fields → Result Metadata
unfolding required_string_value
new_metadata none = err (message "values must not be nil")
new_metadata (some values) = do
  severity_string ← required_string_value values "severity"
  severity ← wrap "failed parsing severity" (string_to_severity severity_string)
  id ← required_string_value values "id"
  title ← required_string_value values "title"
  policy_type ← required_string_value values "type"
  description ← required_string_value values "description"
  ok (record {
    id = id;
    title = title;
    severity = severity;
    type = policy_type;
    description = description;
  })

-- NewMessage
unfoldable pub new_message : Option Fields → Result String
unfolding required_string_value
new_message none = err (message "values must not be nil")
new_message (some values) = required_string_value values "msg"

-- hasBinding: the binding of the first result. Its type assertion panics on a value that is no object, also
-- on the nil that stands for a missing key.
unfoldable pub has_binding : ResultSet → String → Result (Option Fields)
has_binding [] key = ok none
has_binding (r ∷ rs) key = elim (lookup key r) [
  | none ↦ err panicked
  | some no_object ↦ err panicked
  | some (object fields) ↦ ok (some fields)
]

-- The body of the loop of hasBindings.
add_binding : Option Binding → List Fields → List Fields
add_binding none values = values
add_binding (some no_object) values = values
add_binding (some (object fields)) values = fields ∷ values

binding_values : ResultSet → String → List Fields
unfolding add_binding
binding_values [] key = []
binding_values (r ∷ rs) key = add_binding (lookup key r) (binding_values rs key)

-- hasBindings
unfoldable pub has_bindings : ResultSet → String → List Fields × Bool
unfolding binding_values
has_bindings [] key = ([], false)
has_bindings (r ∷ rs) key =
    let values = binding_values (r ∷ rs) key in (values, nat_eq (length (r ∷ rs)) (length values))

add_messages : List Fields → Result (List String)
unfolding new_message
add_messages [] = ok []
add_messages (value ∷ values) = do
  first ← new_message (some value)
  rest ← add_messages values
  ok (first ∷ rest)

-- valuesToResults
unfoldable pub values_to_results : Metadata → List Fields → Result (List Verdict)
unfolding add_messages
values_to_results md values = do
  messages ← add_messages values
  ok (record { metadata = md; success = false; messages = messages } ∷ [])

-- What the results of one rule of a policy, deny or warn, say: a verdict, if each is an object.
pub verdicts_from : Metadata → String → ResultSet → Result (List Verdict × Bool)
unfolding has_bindings values_to_results
verdicts_from md rule rows =
    if (has_bindings rows "res").1
    then (do
      results ←
          wrap (concat "failed parsing " (concat rule " rule result"))
            (values_to_results md (has_bindings rows "res").0)
      ok (results, true))
    else ok ([], false)

-- The calls of package ast and package rego, for a resource of type R. `compile` has the errors of the
-- compiler as its own; a query runs on an input or on none.
pub record Engine (Module Compiler R : Type 0) : Type 0 where
  pub parse_module : String → String → Result Module
  pub package_path : Module → String
  pub compile : Map Module → Result Compiler
  pub query : Compiler → String → Option R → Result ResultSet

module _ {Module Compiler R : Type 0} (rego : Engine Module Compiler R) where
  pub parse_libraries : Map String → Map Module → Result (Map Module)
  parse_libraries [] modules = ok modules
  parse_libraries ((name, code) ∷ rest) modules = do
    library ← wrap "failed parsing Rego library" (rego.parse_module name code)
    parse_libraries rest (insert name library modules)

  verdicts_of : Compiler → Metadata → R → String → String → Result (List Verdict × Bool)
  unfolding verdicts_from
  verdicts_of compiler md resource path rule = do
    rows ←
        wrap (concat "failed evaluating Rego " (concat rule " rule"))
          (rego.query compiler (concat path (concat "." (concat rule "[res]"))) (some resource))
    verdicts_from md rule rows

  passed : Metadata → List Verdict
  passed md = record { metadata = md; success = true; messages = [] } ∷ []

  -- The deny rule, or else the warn rule, or else success.
  judge : Compiler → Metadata → R → String → Result (List Verdict)
  unfolding verdicts_of passed
  judge compiler md resource path = do
    denied ← verdicts_of compiler md resource path "deny"
    if denied.1 then ok denied.0 else (do
      warned ← verdicts_of compiler md resource path "warn"
      ok (if warned.1 then warned.0 else passed md))

  -- The __rego_metadata__ of a policy.
  pub metadata_of : Compiler → String → Result Metadata
  unfolding has_binding new_metadata
  metadata_of compiler path = do
    rows ←
        wrap "failed evaluating Rego metadata rule"
          (rego.query compiler (concat "md = " (concat path ".__rego_metadata__")) none)
    values ← has_binding rows "md"
    if is_some values
        then wrap "failed parsing policy metadata" (new_metadata values)
        else err (message "failed parsing policy metadata")

  -- One policy in the loop of Eval.
  eval_policy : Policies → R → String → String → Result (List Verdict)
  unfolding parse_libraries judge metadata_of
  eval_policy source resource name code = do
    modules ← parse_libraries (libraries source) []
    policy ← wrap "failed parsing Rego policy" (rego.parse_module name code)
    compiler ← wrap "failed compiling Rego policy" (rego.compile (insert name policy modules))
    md ← metadata_of compiler (rego.package_path policy)
    judge compiler md resource (rego.package_path policy)

  eval_policies : Policies → R → Map String → List Verdict → Result (List Verdict)
  unfolding eval_policy
  eval_policies source resource [] results = ok results
  eval_policies source resource ((name, code) ∷ rest) results = do
    more ← eval_policy source resource name code
    eval_policies source resource rest (results ++ more)

  -- Eval, on a resource (or nil) and its kind.
  unfoldable pub eval : Policies → (R → String) → Option R → Result (List Verdict)
  unfolding eval_policies
  eval source kind_of none = err (message "resource must not be nil")
  eval source kind_of (some resource) =
      if kind_of resource == "" then err (message "resource kind must not be blank") else (do
        policies ←
            wrap "failed listing policies by kind" (policies_by_kind source (kind_of resource))
        eval_policies source resource policies [])
