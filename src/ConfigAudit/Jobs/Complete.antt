-- ===== src/ConfigAudit/Jobs/Complete.antt =====
-- What becomes of a complete job of an audit.
use starboard.Prelude.{
  String, true, false, ◌≡◌, refl, lookup, inl, inr, Result, ok, err, wrap_ok, or_error_ok, some,
  is_not_found, Bool-cases, Error,
}
use starboard.Prelude.Action.{◌>>=◌, return, fail, handle-reading, >>=-reading}
use starboard.Constants.{label_resource_spec_hash, label_plugin_config_hash}
use starboard.Kube.Object.{Object, ObjectRef}
use starboard.Kube.Reference.{object_ref_from_object_meta}
use starboard.Kube.Resolver.{object_from_object_ref}
use starboard.Kube.Server.{ScanJob}
use starboard.Vulnerability.Controller.{is_pod_controlled_by_job_not_found}
use starboard.ConfigAudit.{ConfigAuditReportData}
use starboard.ConfigAudit.Builder.{write_audit}
use starboard.ConfigAudit.Scans.{AuditReconciler, has_report}
use starboard.ConfigAudit.Jobs.{
  delete_job, job_report_builder, write_and_delete, store_logs, store_unless_current, process_owned,
  process_of, process_complete_scan_job,
}

module _ {S : Type 0} (r : AuditReconciler S) (s : S) (job : ScanJob) where
  -- What the labels of the job say of the audit, and the object as it is now.
  pub record Labelled (ref : ObjectRef) (owner : Object) (spec_hash config_hash : String)
      : Type 0 where
    pub ref_read : object_ref_from_object_meta job.meta ≡ ok ref
    pub found : object_from_object_ref (r.server.base.cluster s) ref ≡ ok owner
    pub spec_read : lookup label_resource_spec_hash job.meta.labels ≡ some spec_hash
    pub config_read : lookup label_plugin_config_hash job.meta.labels ≡ some config_hash

  -- Why the job is deleted without a report.
  pub data Obsolete : Type 0 where
    owner_gone :
        (ref : ObjectRef) (e : Error)
        → object_ref_from_object_meta job.meta ≡ ok ref
        → object_from_object_ref (r.server.base.cluster s) ref ≡ err e
        → is_not_found e ≡ true
        → Obsolete
    reported :
        (ref : ObjectRef) (owner : Object) (spec_hash config_hash : String)
        → Labelled ref owner spec_hash config_hash
        → has_report r ref spec_hash config_hash s ≡ ok true
        → Obsolete
    pod_gone :
        (e : Error)
        → r.logs job r.plugin.container_name s ≡ err e
        → is_pod_controlled_by_job_not_found e ≡ true
        → Obsolete

  pub data Completed (out : Result (Unit {0}) × S) : Type 0 where
    logs_gone :
        (e : Error)
        → r.logs job r.plugin.container_name s ≡ err e
        → is_not_found e ≡ true
        → out ≡ (ok tt, s)
        → Completed out
    fails : (e : Error) → out ≡ (err e, s) → Completed out
    deletes : Obsolete → out ≡ delete_job r job s → Completed out
    stores :
        (ref : ObjectRef) (owner : Object) (spec_hash config_hash logs : String)
        (parsed : ConfigAuditReportData)
        → Labelled ref owner spec_hash config_hash
        → has_report r ref spec_hash config_hash s ≡ ok false
        → r.logs job r.plugin.container_name s ≡ ok logs
        → r.plugin.parse_config_audit_report_data r.plugin_context logs s ≡ ok parsed
        → out
          ≡ (write_audit r.kit r.read_writer (record {
            controller = owner;
            resource_spec_hash = spec_hash;
            plugin_config_hash = config_hash;
            report_data = parsed;
          })
                >>= λ _. delete_job r job)
              s
        → Completed out

  store_logs_cases :
      (ref : ObjectRef) (owner : Object) (spec_hash config_hash : String)
      → Labelled ref owner spec_hash config_hash
      → has_report r ref spec_hash config_hash s ≡ ok false
      → Completed (store_logs r owner job spec_hash config_hash s)
  unfolding store_logs write_and_delete job_report_builder return fail
  store_logs_cases ref owner spec_hash config_hash labelled outdated =
      handle-reading Completed _ _ _ s
        (λ logs got.
          >>=-reading Completed _ _ s
            (λ parsed from.
              stores ref owner spec_hash config_hash logs parsed labelled outdated got from refl)
            (λ e bad. fails e refl))
        (λ e missing. elim (Bool-cases (is_not_found e)) [
          | inl p ↦ rw p (logs_gone e missing p refl)
          | inr p ↦ rw p (elim (Bool-cases (is_pod_controlled_by_job_not_found e)) [
            | inl q ↦ rw q (deletes (pod_gone e missing q) refl)
            | inr q ↦ rw q (fails _ refl)
          ])
        ])

  process_owned_cases :
      (ref : ObjectRef) (owner : Object)
      → object_ref_from_object_meta job.meta ≡ ok ref
      → object_from_object_ref (r.server.base.cluster s) ref ≡ ok owner
      → Completed (process_owned r ref job owner s)
  unfolding process_owned store_unless_current fail
  process_owned_cases ref owner ref_read found =
      >>=-reading Completed _ _ s
        (λ spec_hash spec.
          >>=-reading Completed _ _ s
            (λ config_hash config.
              let labelled : Labelled ref owner spec_hash config_hash = record {
                ref_read = ref_read;
                found = found;
                spec_read = or_error_ok _ _ _ spec;
                config_read = or_error_ok _ _ _ config;
              } in
              >>=-reading Completed _ _ s
                (λ current asked. elim (Bool-cases current) [
                  | inl p ↦ rw p (
                      deletes (reported ref owner spec_hash config_hash labelled (rw p at asked))
                        refl)
                  | inr p ↦
                      rw p
                        (store_logs_cases ref owner spec_hash config_hash labelled (rw p at asked))
                ])
                (λ e bad. fails e refl))
            (λ e bad. fails e refl))
        (λ e bad. fails e refl)

  -- A run of processCompleteScanJob of the audit by a plugin leaves the server as it was; or deletes the job, and
  -- then its owner is gone, its report is there already, or its pod is gone; or writes the report that the
  -- plugin makes of the logs of the job, under the hashes that the job is labelled with, and then deletes it.
  pub process_complete_scan_job-Completed : Completed (process_complete_scan_job r job s)
  unfolding process_complete_scan_job process_of fail
  process_complete_scan_job-Completed =
      >>=-reading Completed _ _ s
        (λ ref read.
          handle-reading Completed _ _ _ s
            (λ owner found. process_owned_cases ref owner (wrap_ok _ _ _ read) found)
            (λ e missing. elim (Bool-cases (is_not_found e)) [
              | inl p ↦ rw p (deletes (owner_gone ref e (wrap_ok _ _ _ read) missing p) refl)
              | inr p ↦ rw p (fails _ refl)
            ]))
        (λ e bad. fails e refl)
