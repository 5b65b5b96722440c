-- ===== src/Vulnerability/Controller/Jobs.antt =====
-- reconcileJobs: the results of a complete scan job are stored, and a finished job is deleted.
pub mod Adds
use starboard.Prelude.{
  String, Bool, List, [], ◌∷◌, ◌++◌, Map, lookup, if◌then◌else◌, Error, message, wrapped, Result,
  ok, err, is_not_found, wrap, or_error,
}
use starboard.Prelude
use starboard.Prelude.Action.{Action, return, fail, reading, handle, ◌>>=◌, ◌>>◌}
use starboard.Constants.{label_resource_spec_hash, annotation_container_images}
use starboard.Kube.Object.{Object, ObjectRef, ObjectKey}
use starboard.Kube.Reference.{object_ref_from_object_meta}
use starboard.Kube.Resolver.{object_from_object_ref}
use starboard.Kube.Server.{JobConditionType, job_complete, job_failed, job_other, ScanJob}
use starboard.Report.{VulnerabilityReport}
use starboard.Vulnerability.Builder.{build_report}
use starboard.Vulnerability.Controller.{
  Controller, Outcome, done, has_reports, delete_job, is_pod_controlled_by_job_not_found,
}

-- What the loop over the containers ends with: all reports, or one of its early returns.
pub data Collected : Type 0 where
  reports : List VulnerabilityReport → Collected
  job_gone : Collected
  pod_gone : Collected

module _ {S : Type 0} (r : Controller S) where
  -- kube.GetContainerImagesFromJob
  unfoldable pub get_container_images_from_job : ScanJob → Result (Map String)
  get_container_images_from_job job =
      Prelude.◌>>=◌
        (or_error (lookup annotation_container_images job.meta.annotations)
          (message "required annotation not set: starboard.container-images"))
        (λ json. wrap "parsing annotation: starboard.container-images" (r.kit.from_json json))

  unfoldable pub report_from_logs :
      Object → String → String → String → String → Result VulnerabilityReport
  report_from_logs owner hash container image logs =
      Prelude.◌>>=◌ (r.plugin.parse_vulnerability_report_data r.plugin_context image logs)
        (λ parsed. build_report r.kit (record {
          controller = owner;
          container = container;
          hash = hash;
          report_data = parsed;
          report_ttl = r.config.vulnerability_scanner_report_ttl;
        }))

  -- The loop over the container images.
  unfoldable pub collect_reports :
      Object → String → ScanJob → Map String → List VulnerabilityReport → Action S Collected
  unfolding report_from_logs
  collect_reports owner hash job [] collected = return (reports collected)
  collect_reports owner hash job ((container, image) ∷ images) collected =
      handle (reading (r.logs job container))
        (λ logs. do
          report ← reading (λ s. report_from_logs owner hash container image logs)
          collect_reports owner hash job images (collected ++ report ∷ []))
        (λ e.
          if is_not_found e
          then return job_gone
          else if is_pod_controlled_by_job_not_found e
          then return pod_gone
          else fail (wrapped "getting logs for pod" e))

  unfoldable pub finish : ScanJob → Collected → Action S (Unit {0})
  finish job (reports collected) = do r.read_writer.write collected; delete_job r job
  finish job job_gone = return tt
  finish job pod_gone = delete_job r job

  -- From the logs on.
  unfoldable pub store_results : Object → String → ScanJob → Map String → Action S (Unit {0})
  unfolding collect_reports finish
  store_results owner hash job images = do
    collected ← collect_reports owner hash job images []
    finish job collected

  -- From the look at the reports on.
  unfoldable pub store_unless_reported :
      ObjectRef → Object → ScanJob → Map String → String → Action S (Unit {0})
  unfolding store_results
  store_unless_reported ref owner job images hash = do
    reported ← reading (has_reports r ref hash images)
    if reported then delete_job r job else store_results owner hash job images

  -- From the owner on.
  unfoldable pub process_owned : ObjectRef → ScanJob → Object → Action S (Unit {0})
  unfolding get_container_images_from_job store_unless_reported
  process_owned ref job owner = do
    images ← reading (λ s. wrap "getting container images" (get_container_images_from_job job))
    hash ← reading (λ s.
        or_error (lookup label_resource_spec_hash job.meta.labels)
          (message "expected label resource-spec-hash not set"))
    store_unless_reported ref owner job images hash

  -- From the reference to the owner on.
  unfoldable pub process_of : ScanJob → ObjectRef → Action S (Unit {0})
  unfolding process_owned
  process_of job ref =
      handle (reading (λ s. object_from_object_ref (r.server.cluster s) ref))
        (λ owner. process_owned ref job owner)
        (λ e.
          if is_not_found e
          then delete_job r job
          else fail (wrapped "getting object from object ref" e))

  unfoldable pub process_complete_scan_job : ScanJob → Action S (Unit {0})
  unfolding process_of
  process_complete_scan_job job = do
    ref ← reading (λ s.
        wrap "getting owner ref from scan job metadata" (object_ref_from_object_meta job.meta))
    process_of job ref

  unfoldable pub process_failed_scan_job : ScanJob → Action S (Unit {0})
  process_failed_scan_job job =
      handle (reading (r.terminated job)) (λ statuses. delete_job r job)
        (λ e.
          if is_not_found e
          then return tt
          else if is_pod_controlled_by_job_not_found e
          then delete_job r job
          else fail e)

  by_condition : ScanJob → List JobConditionType → Action S (Unit {0})
  by_condition job [] = return tt
  by_condition job (job_complete ∷ conditions) = process_complete_scan_job job
  by_condition job (job_failed ∷ conditions) = process_failed_scan_job job
  by_condition job (job_other ∷ conditions) = fail (message "unrecognized scan job condition")

  unfoldable pub reconcile_jobs : ObjectKey → Action S Outcome
  unfolding by_condition
  reconcile_jobs key =
      handle (reading (r.server.get_job key))
        (λ job. do by_condition job job.conditions; return done)
        (λ e. if is_not_found e then return done else fail (wrapped "getting job from cache" e))
