-- ===== src/Operator/Config/InstallMode.antt =====
-- Config.ResolveInstallMode (pkg/operator/etc/config.go) and InstallModePredicate
-- (pkg/operator/predicate/predicate.go).
use starboard.Prelude.{
  String, Bool, true, false, not, ◌&&◌, ◌≡◌, ◌≢◌, List, [], ◌∷◌, ◌==◌, eq_iff, if◌then◌else◌,
  length, nat_eq, ltb, split, trim_space, contains, Result, ok, err, ◌>>=◌, arith, All, refl,
  Bool-cases, inl, inr, ap, sym, ok_injective, message, ◌∙◌, ◌↔◌,
}
use starboard.Operator.Config.{Config, get_operator_namespace, get_target_namespaces}

pub data InstallMode : Type 0 where
  own_namespace single_namespace multi_namespace all_namespaces : InstallMode

-- targetNamespaces[0], read only where the slice has an item.
abbrev first : List String → String
first [] = ""
first (t ∷ ts) = t

resolve_mode : String → List String → InstallMode
resolve_mode operator targets =
    if nat_eq (length targets) 1 && operator == first targets
    then own_namespace
    else if nat_eq (length targets) 1 && not (operator == first targets)
    then single_namespace
    else if ltb 1 (length targets)
    then multi_namespace
    else all_namespaces

unfoldable pub resolve_install_mode : Config → Result (InstallMode × String × List String)
unfolding resolve_mode
resolve_install_mode c = do
  operator ← get_operator_namespace c
  let targets = get_target_namespaces c
  ok (resolve_mode operator targets, operator, targets)

-- `glob` is filepath.Match. A malformed pattern ends the loop, and the object is scanned.
module _ (glob : String → String → Result Bool) where
  scan_unless_excluded : List String → String → Bool
  scan_unless_excluded [] namespace = true
  scan_unless_excluded (pattern_text ∷ patterns) namespace =
      let rest = scan_unless_excluded patterns namespace in
      elim (glob (trim_space pattern_text) namespace) [
        | err e ↦ true
        | ok true ↦ false
        | ok false ↦ rest
      ]

  unfoldable pub mode_allows : Config → InstallMode → String → List String → String → Bool
  unfolding scan_unless_excluded
  mode_allows c single_namespace operator targets namespace =
      first targets == namespace && not (operator == namespace)
  mode_allows c multi_namespace operator targets namespace = contains targets namespace
  mode_allows c all_namespaces operator targets namespace =
      if trim_space c.exclude_namespaces == ""
      then true
      else scan_unless_excluded (split b',' c.exclude_namespaces) namespace
  mode_allows c own_namespace operator targets namespace = true

  -- The predicate, on the namespace of the object of an event.
  unfoldable pub install_mode_predicate : Config → Result (String → Bool)
  unfolding mode_allows
  install_mode_predicate c = do
    resolved ← resolve_install_mode c
    ok (λ namespace. mode_allows c resolved.0 resolved.1 resolved.2 namespace)

  resolved_targets :
      (c : Config) (allows : String → Bool)
      → install_mode_predicate c ≡ ok allows
      → (namespace : String)
      → allows namespace
        ≡ mode_allows c
            (resolve_mode c.namespace (get_target_namespaces c))
            c.namespace
            (get_target_namespaces c)
            namespace
  unfolding install_mode_predicate resolve_install_mode get_operator_namespace
  resolved_targets c allows h namespace = elim (Bool-cases (c.namespace == "")) [
    | inl blank ↦ absurd (unset (rw blank at h))
    | inr set ↦ sym (ap (λ f. f namespace) (ok_injective (rw set at h)))
  ]
    where
      unset : err (message "OPERATOR_NAMESPACE must be set") ≡ ok allows → ⊥
      unset e = cc

  targets_allow :
      (c : Config) (operator : String) (targets : List String) (namespace : String)
      → targets ≢ []
      → targets ≢ operator ∷ []
      → mode_allows c (resolve_mode operator targets) operator targets namespace
        ≡ contains targets namespace
  unfolding resolve_mode mode_allows contains
  targets_allow c operator [] namespace some_target foreign = absurd (some_target refl)
  targets_allow c operator (t ∷ []) namespace some_target foreign =
      ground (arith, eq_iff operator t, eq_iff operator namespace, eq_iff t namespace)
  targets_allow c operator (t ∷ u ∷ ts) namespace some_target foreign = ground arith

  -- With target namespaces set, other than just the operator's own, an object is reconciled exactly when its
  -- namespace is one of them: also with a single target, where the code tests the operator's namespace too.
  pub install_mode_predicate-contains :
      (c : Config) (allows : String → Bool) (namespace : String)
      → install_mode_predicate c ≡ ok allows
      → get_target_namespaces c ≢ []
      → get_target_namespaces c ≢ c.namespace ∷ []
      → allows namespace ≡ contains (get_target_namespaces c) namespace
  install_mode_predicate-contains c allows namespace h some_target foreign =
      resolved_targets c allows h namespace
      ∙ targets_allow c c.namespace (get_target_namespaces c) namespace some_target foreign

  -- No pattern of the list matches the namespace.
  abbrev pub NoMatch : String → List String → Type 0
  NoMatch namespace = All (λ p. glob (trim_space p) namespace ≡ ok false)

  -- Every pattern of the list is well formed.
  abbrev pub WellFormed : String → List String → Type 0
  WellFormed namespace = All (λ p. (b : Bool) × (glob (trim_space p) namespace ≡ ok b))

  scan_unless_excluded_iff :
      (patterns : List String) (namespace : String)
      → WellFormed namespace patterns
      → (scan_unless_excluded patterns namespace ≡ true) ↔ NoMatch namespace patterns
  unfolding scan_unless_excluded
  scan_unless_excluded_iff [] namespace h = ((λ e. tt), (λ e. refl))
  scan_unless_excluded_iff (p ∷ patterns) namespace ((b, e), h) =
      ground (arith, scan_unless_excluded_iff patterns namespace h)

  -- With no target namespaces and well-formed exclusion patterns, an object is reconciled exactly when no
  -- pattern, its surrounding space trimmed, matches its namespace.
  pub install_mode_predicate_iff_NoMatch :
      (c : Config) (allows : String → Bool) (namespace : String)
      → install_mode_predicate c ≡ ok allows
      → get_target_namespaces c ≡ []
      → trim_space c.exclude_namespaces ≢ ""
      → WellFormed namespace (split b',' c.exclude_namespaces)
      → (allows namespace ≡ true) ↔ NoMatch namespace (split b',' c.exclude_namespaces)
  unfolding mode_allows resolve_mode
  install_mode_predicate_iff_NoMatch c allows namespace h everywhere excludes formed =
      let e = resolved_targets c allows h namespace in
      rw (e, everywhere)
        (ground (
          arith,
          eq_iff (trim_space c.exclude_namespaces) "",
          scan_unless_excluded_iff (split b',' c.exclude_namespaces) namespace formed,
        ))
