-- ===== src/ConfigAudit/Jobs.antt =====
-- reconcileJobs of pkg/operator/controller/configauditreport.go: the report that a complete job gives is
-- written, and a finished job is deleted.
pub mod Complete
use starboard.Prelude.{
  String, Bool, List, [], ◌∷◌, lookup, if◌then◌else◌, Error, message, wrapped, Result, ok, err,
  is_not_found, wrap, or_error,
}
use starboard.Prelude.Action.{Action, return, fail, reading, handle, ◌>>=◌, ◌>>◌}
use starboard.Constants.{label_resource_spec_hash, label_plugin_config_hash}
use starboard.Kube.Object.{Object, ObjectRef, ObjectKey}
use starboard.Kube.Reference.{object_ref_from_object_meta}
use starboard.Kube.Resolver.{object_from_object_ref}
use starboard.Kube.Server.{
  JobConditionType, job_complete, job_failed, job_other, ScanJob, Outcome, done, key_of,
}
use starboard.Vulnerability.Controller.{is_pod_controlled_by_job_not_found}
use starboard.ConfigAudit.{ConfigAuditReportData}
use starboard.ConfigAudit.Builder.{AuditReportBuilder, write_audit}
use starboard.ConfigAudit.Scans.{AuditReconciler, has_report}

module _ {S : Type 0} (r : AuditReconciler S) where
  unfoldable pub delete_job : ScanJob → Action S (Unit {0})
  delete_job job =
      handle (r.server.base.delete_job (key_of job.meta)) return
        (λ e. if is_not_found e then return tt else fail (wrapped "deleting job" e))

  job_report_builder : Object → String → String → ConfigAuditReportData → AuditReportBuilder
  job_report_builder owner spec_hash config_hash parsed = record {
    controller = owner;
    resource_spec_hash = spec_hash;
    plugin_config_hash = config_hash;
    report_data = parsed;
  }

  -- From the parsed logs on.
  unfoldable pub write_and_delete :
      Object → ScanJob → String → String → ConfigAuditReportData → Action S (Unit {0})
  unfolding job_report_builder delete_job
  write_and_delete owner job spec_hash config_hash parsed = do
    write_audit r.kit r.read_writer (job_report_builder owner spec_hash config_hash parsed)
    delete_job job

  -- From the logs on.
  unfoldable pub store_logs : Object → ScanJob → String → String → Action S (Unit {0})
  unfolding write_and_delete
  store_logs owner job spec_hash config_hash =
      handle (reading (r.logs job r.plugin.container_name))
        (λ logs. do
          parsed ← reading (r.plugin.parse_config_audit_report_data r.plugin_context logs)
          write_and_delete owner job spec_hash config_hash parsed)
        (λ e.
          if is_not_found e
          then return tt
          else if is_pod_controlled_by_job_not_found e
          then delete_job job
          else fail (wrapped "getting logs" e))

  -- From the look at the report on.
  unfoldable pub store_unless_current :
      ObjectRef → Object → ScanJob → String → String → Action S (Unit {0})
  unfolding store_logs
  store_unless_current ref owner job spec_hash config_hash = do
    current ← reading (has_report r ref spec_hash config_hash)
    if current then delete_job job else store_logs owner job spec_hash config_hash

  -- From the owner on.
  unfoldable pub process_owned : ObjectRef → ScanJob → Object → Action S (Unit {0})
  unfolding store_unless_current
  process_owned ref job owner = do
    spec_hash ← reading (λ s.
        or_error (lookup label_resource_spec_hash job.meta.labels)
          (message "expected label resource-spec-hash not set"))
    config_hash ← reading (λ s.
        or_error (lookup label_plugin_config_hash job.meta.labels)
          (message "expected label plugin-config-hash not set"))
    store_unless_current ref owner job spec_hash config_hash

  -- From the reference to the owner on.
  unfoldable pub process_of : ScanJob → ObjectRef → Action S (Unit {0})
  unfolding process_owned
  process_of job ref =
      handle (reading (λ s. object_from_object_ref (r.server.base.cluster s) ref))
        (λ owner. process_owned ref job owner)
        (λ e.
          if is_not_found e
          then delete_job job
          else fail (wrapped "getting object from object ref" e))

  unfoldable pub process_complete_scan_job : ScanJob → Action S (Unit {0})
  unfolding process_of
  process_complete_scan_job job = do
    ref ← reading (λ s.
        wrap "getting owner ref from scan job metadata" (object_ref_from_object_meta job.meta))
    process_of job ref

  -- The last deletion is not that of deleteJob: a job that is gone is an error.
  unfoldable pub process_failed_scan_job : ScanJob → Action S (Unit {0})
  process_failed_scan_job job =
      handle (reading (r.terminated job)) (λ statuses. r.server.base.delete_job (key_of job.meta))
        (λ e.
          if is_not_found e
          then return tt
          else if is_pod_controlled_by_job_not_found e
          then delete_job job
          else fail e)

  by_condition : ScanJob → List JobConditionType → Action S (Unit {0})
  by_condition job [] = return tt
  by_condition job (job_complete ∷ conditions) = process_complete_scan_job job
  by_condition job (job_failed ∷ conditions) = process_failed_scan_job job
  by_condition job (job_other ∷ conditions) = fail (message "unrecognized job condition")

  unfoldable pub reconcile_jobs : ObjectKey → Action S Outcome
  unfolding by_condition
  reconcile_jobs key =
      handle (reading (r.server.base.get_job key))
        (λ job. do by_condition job job.conditions; return done)
        (λ e. if is_not_found e then return done else fail (wrapped "getting job from cache" e))
