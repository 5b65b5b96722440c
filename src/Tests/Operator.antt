-- ===== src/Tests/Operator.antt =====
-- The operator's predicate, limit and expiry on small settings.
use starboard.Prelude.{
  String, Bool, true, false, sym, ◌∙◌, ◌≡◌, ◌≢◌, refl, ◌↔◌, [], ◌∷◌, List, some, ok, Result,
  contains, ◌==◌, split, length, trim_space,
}
use starboard.Prelude.Int.{◌-ℤ◌, ℤ, pos, ◌≤ℤ◌, ◌<ℤ◌, ◌+ℤ◌}
use starboard.Constants.{label_k8s_app_managed_by, app_starboard}
use starboard.Kube.Server.{ScanJob}
use starboard.Operator.Config.{get_operator_namespace, Config, get_target_namespaces}
use starboard.Operator.Config.InstallMode.{
  resolve_install_mode, all_namespaces, mode_allows, install_mode_predicate,
  install_mode_predicate-contains, install_mode_predicate_iff_NoMatch, NoMatch,
}
use starboard.Operator.Limit.{limit_checker, check_sound}
use starboard.Operator.Expiry.{
  is_ttl_expired, is_ttl_expired_when_left, Expires, reconcile_report, reconcile_report_cases,
}
use starboard.Tests.Server.{server}
use starboard.Tests.Scans.{config, busy}

abbrev glob : String → String → Result Bool
glob pattern_text name = ok (pattern_text == name)

abbrev everywhere : Config
everywhere = record config { target_namespaces = ""; exclude_namespaces = "kube-system, dev" }

-- The two predicates.
abbrev of_targets : String → Bool
of_targets namespace = contains ("prod" ∷ "dev" ∷ []) namespace

abbrev unless_matched : String → Bool
unless_matched namespace = mode_allows glob everywhere all_namespaces "starboard" [] namespace

targets : get_target_namespaces config ≡ "prod" ∷ "dev" ∷ []
unfolding get_target_namespaces split
targets = refl

of_targets_lem : install_mode_predicate glob config ≡ ok of_targets
unfolding install_mode_predicate resolve_install_mode get_operator_namespace contains
    get_target_namespaces split
of_targets_lem = refl

not_empty : get_target_namespaces config ≢ []
not_empty e = let x = sym targets ∙ e in cc

not_own : get_target_namespaces config ≢ "starboard" ∷ []
not_own e = let x = sym targets ∙ e in cc

no_targets : get_target_namespaces everywhere ≡ []
unfolding get_target_namespaces
no_targets = refl

patterns : split b',' everywhere.exclude_namespaces ≡ "kube-system" ∷ " dev" ∷ []
unfolding split
patterns = refl

unless_matched_lem : install_mode_predicate glob everywhere ≡ ok unless_matched
unfolding install_mode_predicate resolve_install_mode get_operator_namespace trim_space
    get_target_namespaces
unless_matched_lem = refl

trimmed : trim_space everywhere.exclude_namespaces ≡ "kube-system, dev"
unfolding trim_space
trimmed = refl

excludes : trim_space everywhere.exclude_namespaces ≢ ""
excludes e = let x = sym trimmed ∙ e in cc

excluded_example :
    (unless_matched "prod" ≡ true) ↔ NoMatch glob "prod" (split b',' everywhere.exclude_namespaces)
unfolding split trim_space
excluded_example =
    install_mode_predicate_iff_NoMatch glob everywhere unless_matched "prod" unless_matched_lem
      no_targets excludes ((false, refl), ((false, refl), tt))

install_mode_example : of_targets "dev" ≡ contains (get_target_namespaces config) "dev"
install_mode_example =
    install_mode_predicate-contains glob config of_targets "dev" of_targets_lem not_empty not_own

check_example :
    ((items : List ScanJob) × (server.list_jobs
          ((label_k8s_app_managed_by, app_starboard) ∷ [])
          (some "starboard")
          busy
        ≡ ok items)
      × (1 ≡ length items))
    × ((true ≡ false) ↔ (pos 2 ≤ℤ pos 1))
unfolding limit_checker
check_example = check_sound server config [] busy true 1 refl

left_example :
    (pos 0 <ℤ pos 20)
    × ((later : ℤ)
        → ((is_ttl_expired (pos 60) (pos 100) later).0 ≡ true) ↔ (pos 140 +ℤ pos 20 ≤ℤ later))
unfolding is_ttl_expired ◌-ℤ◌ ◌+ℤ◌
left_example = is_ttl_expired_when_left (pos 60) (pos 100) (pos 140) (pos 20) refl

expiry_example :
    Expires server
      (λ text. ok (pos 60))
      (λ s. pos 200)
      (record { name = "app"; namespace = "prod" })
      busy
      (reconcile_report server
        (λ text. ok (pos 60))
        (λ s. pos 200)
        (record { name = "app"; namespace = "prod" })
        busy)
expiry_example =
    reconcile_report_cases server (λ text. ok (pos 60)) (λ s. pos 200)
      (record { name = "app"; namespace = "prod" }) busy
