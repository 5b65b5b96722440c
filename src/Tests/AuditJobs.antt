-- ===== src/Tests/AuditJobs.antt =====
-- Audits as jobs, and the deletion of outdated reports, on the small server.
use starboard.Prelude.{
  String, Bool, true, false, ◌≡◌, List, [], ◌∷◌, Result, ok, take, none, not, ◌&&◌, ◌==◌,
  if◌then◌else◌, err, status, other_reason, value,
}
use starboard.Prelude.Int.{ℤ, pos, pos_part}
use starboard.Kube.Kind
use starboard.Kube.Object.{ObjectKey}
use starboard.Operator.Config.{Config}
use starboard.ConfigAudit.{
  ReportApi, AuditPlugin, ConfigAuditReport, ConfigAuditReportData, Check,
  config_audit_summary_from_checks,
}
use starboard.ConfigAudit.Summary.{failed_of, config_audit_summary_from_checks_lem}
use starboard.ConfigAudit.Scans.{AuditReconciler, reconcile_resource}
use starboard.ConfigAudit.Scans.Scheduling.{Reconciled, reconcile_resource-Reconciled}
use starboard.ConfigAudit.Jobs.{process_complete_scan_job}
use starboard.ConfigAudit.Jobs.Complete.{Completed, process_complete_scan_job-Completed}
use starboard.ConfigAudit.Cleanup.{outdated_selector}
use starboard.ConfigAudit.Cleanup.Batches.{report_keys}
use starboard.Constants.{label_plugin_config_hash, label_resource_kind}
use starboard.Tests.Data.{web_spec, meta_of}
use starboard.Tests.Scans.{config, plugin_context, web_key, web_job}
use starboard.Tests.Audit.{Audits, audit_server, audit_kit, auditor, api, has_key, sample}

abbrev clean : ConfigAuditReportData
clean = (sample "Pod").report

abbrev checker : AuditPlugin Audits
checker = record {
  get_scan_job_spec = λ context obj s. ok (web_spec, []);
  parse_config_audit_report_data = λ context logs s. ok clean;
  container_name = "checker";
  config_hash = λ context kind s. ok "settings-1";
  supported_kinds = "Pod" ∷ [];
  is_applicable = λ context obj s. ok true;
}

abbrev reconciler : AuditReconciler Audits
reconciler = record {
  config = config;
  settings = [];
  server = audit_server;
  limit_checker = record { check = λ s. ok (false, 0) };
  logs = λ job container s. ok "{}";
  terminated = λ job s. ok tt;
  tolerations = ok [];
  plugin = checker;
  plugin_context = plugin_context;
  read_writer = auditor.read_writer;
  kit = audit_kit;
}

scheduling_example :
    Reconciled reconciler [] Kind.pod web_key (reconcile_resource reconciler Kind.pod web_key [])
scheduling_example = reconcile_resource-Reconciled reconciler [] Kind.pod web_key

done_job_example : Completed reconciler [] web_job (process_complete_scan_job reconciler web_job [])
done_job_example = process_complete_scan_job-Completed reconciler [] web_job

abbrev check_of : String → Bool → Check
check_of severity success = record {
  id = "KSV1";
  title = "t";
  description = "d";
  severity = severity;
  category = "c";
  messages = [];
  success = success;
}

abbrev three : List Check
three = check_of "LOW" false ∷ check_of "LOW" true ∷ check_of "HIGH" false ∷ []

summary_example :
    ((config_audit_summary_from_checks three).critical_count ≡ failed_of "CRITICAL" three)
    × ((config_audit_summary_from_checks three).high_count ≡ failed_of "HIGH" three)
    × ((config_audit_summary_from_checks three).medium_count ≡ failed_of "MEDIUM" three)
    × ((config_audit_summary_from_checks three).low_count ≡ failed_of "LOW" three)
summary_example = config_audit_summary_from_checks_lem three

abbrev one_by_one : Config
one_by_one = record config { batch_delete_limit = pos 1 }

abbrev is_outdated : ConfigAuditReport → Bool
is_outdated r =
    not (value label_plugin_config_hash r.meta.labels == "policies-1")
    && value label_resource_kind r.meta.labels == "Pod"

abbrev filter : (ConfigAuditReport → Bool) → Audits → Audits
filter p [] = []
filter p (r ∷ rs) = let rest = filter p rs in if p r then r ∷ rest else rest

abbrev outdated : Audits → List ObjectKey
outdated s = report_keys (filter is_outdated s)

-- A limited list of the reports that the selector asks for.
list_first : String → ℤ → Audits → Result (List ConfigAuditReport)
list_first selector n s =
    if selector == outdated_selector "policies-1" "Pod"
    then ok (take (pos_part n) (filter is_outdated s))
    else err (status other_reason)

-- The names of the outdated reports are their own.
abbrev without : ObjectKey → Audits → Audits
without key [] = []
without key (r ∷ rs) =
    let rest = without key rs in if is_outdated r && has_key key r then rs else r ∷ rest

abbrev deleting : ReportApi Audits
deleting = record api { delete = λ key s. (ok tt, without key s) }

abbrev aged : String → String → String → ConfigAuditReport
aged name kind config_hash = record (sample kind) {
  meta =
      meta_of name ((label_resource_kind, kind) ∷ (label_plugin_config_hash, config_hash) ∷ []) []
        none;
}

-- Two of the reports are outdated ones of Pods.
abbrev stored : Audits
stored =
    aged "pod-a" "Pod" "policies-0"
    ∷ aged "pod-b" "Pod" "policies-1"
    ∷ aged "job-c" "Job" "policies-0"
    ∷ aged "pod-d" "Pod" "policies-0"
    ∷ []
