-- ===== src/Policy.antt =====
-- pkg/policy/policy.go: policies in Rego, kept in a ConfigMap next to the kinds of objects that they apply to.
-- The evaluator stands in the module below.
pub mod Eval
pub mod Selection
use starboard.Prelude.{
  String, Bool, true, false, ◌&&◌, ◌||◌, not, List, [], ◌∷◌, Option, none, some, Map, lookup,
  insert, insert_all, ◌==◌, if◌then◌else◌, concat, split, has_prefix, has_suffix, trim_suffix,
  Result, ok, err, message, ◌>>=◌, is_some, or_error,
}
use starboard.Kube.Kind.{is_workload}

-- The entries of the ConfigMap; `keys` such as policy.NAME.rego, policy.NAME.kinds and library.NAME.rego.
abbrev pub Policies : Type 0
Policies = Map String

is_library : String → Bool
is_library key = has_prefix key "library." && has_suffix key ".rego"

-- Libraries
unfoldable pub libraries : Policies → Map String
unfolding is_library
libraries [] = []
libraries ((key, code) ∷ rest) =
    let others = libraries rest in if is_library key then insert key code others else others

-- Does an item of the list of kinds apply to the kind? The two tests that skip an item.
unfoldable pub applies : String → String → Bool
applies kind k =
    not (k == "Workload" && not (is_workload kind)) && (k == "*" || (k == "Workload" || k == kind))

-- One item of the kinds of a policy: the policy is picked, and has to be there.
add_for_kind : Policies → String → String → String → Map String → Result (Map String)
unfolding applies
add_for_kind source kind policy_key k policies =
    if applies kind k
    then (do
      code ← or_error (lookup policy_key source) (message "expected policy not found")
      ok (insert policy_key code policies))
    else ok policies

add_for_kinds : Policies → String → String → List String → Map String → Result (Map String)
unfolding add_for_kind
add_for_kinds source kind policy_key [] policies = ok policies
add_for_kinds source kind policy_key (k ∷ ks) policies = do
  more ← add_for_kind source kind policy_key k policies
  add_for_kinds source kind policy_key ks more

-- Is this a policy whose kinds are not given?
lacks_kinds : Policies → String → Bool
lacks_kinds source key =
    (has_suffix key ".rego" && has_prefix key "policy.")
    && not (is_some (lookup (concat (trim_suffix key ".rego") ".kinds") source))

abbrev pub policy_key_of : String → String
policy_key_of key = concat (trim_suffix key ".kinds") ".rego"

-- One entry in the loop of PoliciesByKind.
add_policy : Policies → String → String → String → Map String → Result (Map String)
unfolding add_for_kinds lacks_kinds
add_policy source kind key kinds policies =
    if lacks_kinds source key
    then err (message "kinds not defined for policy")
    else if has_suffix key ".kinds"
    then add_for_kinds source kind (policy_key_of key) (split b',' kinds) policies
    else ok policies

add_policies : Policies → String → Policies → Map String → Result (Map String)
unfolding add_policy
add_policies source kind [] policies = ok policies
add_policies source kind ((key, kinds) ∷ entries) policies = do
  more ← add_policy source kind key kinds policies
  add_policies source kind entries more

-- PoliciesByKind
unfoldable pub policies_by_kind : Policies → String → Result (Map String)
unfolding add_policies
policies_by_kind source kind = add_policies source kind source []

-- ModulesByKind
unfoldable pub modules_by_kind : Policies → String → Result (Map String)
modules_by_kind source kind = do
  modules ← policies_by_kind source kind
  ok (insert_all (libraries source) modules)

-- Hash; `compute_hash` is kube.ComputeHash of a map of texts.
unfoldable pub hash : (Map String → String) → Policies → String → Result String
hash compute_hash source kind = do modules ← modules_by_kind source kind; ok (compute_hash modules)

is_nonempty : Map String → Bool
is_nonempty [] = false
is_nonempty (p ∷ ps) = true

-- Applicable, on the kind of the resource.
unfoldable pub applicable : Policies → String → Result Bool
unfolding is_nonempty
applicable source kind =
    if kind == ""
    then err (message "resource kind must not be blank")
    else (do policies ← policies_by_kind source kind; ok (is_nonempty policies))
