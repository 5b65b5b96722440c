-- ===== src/Operator/Config.antt =====
-- etc.Config (pkg/operator/etc/config.go) and the settings of starboard.ConfigData
-- (pkg/starboard/config.go).
pub mod InstallMode
use starboard.Prelude.{
  String, Bool, true, false, ◌&&◌, List, [], ◌∷◌, Option, none, some, Map, lookup, value, ◌==◌,
  if◌then◌else◌, length, split, trim_space, insert, Error, message, Result, ok, err, ◌>>=◌,
  or_error, nat_eq, ltb, ◌≡◌,
}
use starboard.Prelude.Int.{ℤ, pos}

-- Durations are nanoseconds.
pub record Config : Type 0 where
  pub namespace : String
  pub target_namespaces : String
  pub exclude_namespaces : String
  pub service_account : String
  pub scan_job_timeout : ℤ
  pub concurrent_scan_jobs_limit : ℤ
  pub scan_job_retry_after : ℤ
  pub batch_delete_limit : ℤ
  pub batch_delete_delay : ℤ
  pub vulnerability_scanner_scan_only_current_revisions : Bool
  pub vulnerability_scanner_report_ttl : Option ℤ
  pub config_audit_scanner_enabled : Bool
  pub config_audit_scanner_built_in : Bool

-- What GetOperatorConfig does with the Config that the env package parsed.
unfoldable pub check_operator_config : Config → Result Config
check_operator_config config =
    if config.config_audit_scanner_enabled && config.config_audit_scanner_built_in
    then err (
        message
          "plugin-based and built-in configuration audit scanners cannot be enabled at the same time")
    else ok config

unfoldable pub get_operator_namespace : Config → Result String
get_operator_namespace c =
    if c.namespace == "" then err (message "OPERATOR_NAMESPACE must be set") else ok c.namespace

unfoldable pub get_target_namespaces : Config → List String
get_target_namespaces c = if c.target_namespaces == "" then [] else split b',' c.target_namespaces

abbrev pub ConfigData : Type 0
ConfigData = Map String

abbrev pub key_vulnerability_scans_in_same_namespace : String
key_vulnerability_scans_in_same_namespace = "vulnerabilityReports.scanJobsInSameNamespace"

unfoldable pub vulnerability_scan_jobs_in_same_namespace : ConfigData → Bool
vulnerability_scan_jobs_in_same_namespace c =
    elim (lookup key_vulnerability_scans_in_same_namespace c) [
      | none ↦ false
      | some v ↦ v == "true"
    ]

unfoldable pub get_required_data : String → ConfigData → Result String
get_required_data key c = or_error (lookup key c) (message "property not set")

-- One item of a comma separated list of settings: exactly one key and one value round a `=`.
key_value : List String → Option (String × String)
key_value (key ∷ v ∷ []) = some (key, v)
key_value _ = none

-- The loop over strings.Split(setting, ",").
parse_key_values : Error → List String → Map String → Result (Map String)
parse_key_values e [] m = ok m
parse_key_values e (item ∷ items) m = elim (key_value (split b'=' item)) [
  | none ↦ err e
  | some kv ↦ parse_key_values e items (insert kv.0 kv.1 m)
]

key_values_of : Error → Option String → Result (Map String)
unfolding parse_key_values key_value
key_values_of e none = ok []
key_values_of e (some setting) =
    if trim_space setting == "" then ok [] else parse_key_values e (split b',' setting) []

unfoldable pub get_scan_job_annotations : ConfigData → Result (Map String)
unfolding key_values_of
get_scan_job_annotations c =
    key_values_of (message "failed parsing incorrectly formatted custom scan job annotations")
      (lookup "scanJob.annotations" c)

unfoldable pub get_scan_job_pod_template_labels : ConfigData → Result (Map String)
unfolding key_values_of
get_scan_job_pod_template_labels c =
    key_values_of (message "failed parsing incorrectly formatted custom scan pod template labels")
      (lookup "scanJob.podTemplateLabels" c)

-- `atoi` is strconv.Atoi, with none for its error.
unfoldable pub compliance_fail_entries_limit : (String → Option ℤ) → ConfigData → ℤ
compliance_fail_entries_limit atoi c = elim (lookup "compliance.failEntriesLimit" c) [
  | none ↦ pos 10
  | some v ↦ elim (atoi v) [ none ↦ pos 10 | some n ↦ n ]
]
