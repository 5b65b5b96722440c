-- ===== src/Vulnerability/Controller/Jobs/Adds.antt =====
-- By how many can reconcileJobs enlarge the number of jobs?
use starboard.Prelude.{ℕ, String, List, [], ◌∷◌, ◌++◌, Map, is_not_found}
use starboard.Prelude.Growth.{
  Adds, return-Adds, fail-Adds, if-Adds, handle-Adds, reading-Adds, >>=-Adds, read-Adds,
}
use starboard.Kube.Object.{Object, ObjectRef, ObjectKey}
use starboard.Kube.Server.{
  JobConditionType, job_complete, job_failed, job_other, ScanJob, key_of, done, Outcome,
}
use starboard.Report.{VulnerabilityReport}
use starboard.Vulnerability.Controller.{Controller, delete_job, is_pod_controlled_by_job_not_found}
use starboard.Vulnerability.Controller.Submit.Adds.{CountsJobs}
use starboard.Vulnerability.Controller.Jobs.{
  Collected, reports, job_gone, pod_gone, collect_reports, finish, store_results,
  store_unless_reported, process_owned, process_of, process_complete_scan_job,
  process_failed_scan_job, by_condition, reconcile_jobs,
}

module _ {S : Type 0} (r : Controller S) (jobs : S → ℕ) (counts : CountsJobs r.server jobs)
    (writes : (list : List VulnerabilityReport) → Adds jobs 0 (r.read_writer.write list)) where
  delete_job-Adds : (job : ScanJob) → Adds jobs 0 (delete_job r job)
  unfolding delete_job
  delete_job-Adds job =
      handle-Adds jobs 0 0 _ _ _ (counts.on_delete_job (key_of job.meta))
        (λ _. return-Adds jobs 0 _)
        (λ e.
          if-Adds jobs 0 (is_not_found e) _ _ (return-Adds jobs 0 tt)
            (fail-Adds jobs (Unit {0}) 0 _))

  collect_reports-Adds :
      (owner : Object) (hash : String) (job : ScanJob) (images : Map String)
      (collected : List VulnerabilityReport)
      → Adds jobs 0 (collect_reports r owner hash job images collected)
  unfolding collect_reports
  collect_reports-Adds owner hash job [] collected = return-Adds jobs 0 (reports collected)
  collect_reports-Adds owner hash job ((container, image) ∷ images) collected =
      reading-Adds jobs 0 _ _ _
        (λ logs.
          read-Adds jobs 0 _ _
            (λ report. collect_reports-Adds owner hash job images (collected ++ report ∷ [])))
        (λ e. if-Adds jobs 0 (is_not_found e) _ _ (return-Adds jobs 0 job_gone) (
          if-Adds jobs 0 (is_pod_controlled_by_job_not_found e) _ _ (return-Adds jobs 0 pod_gone)
            (fail-Adds jobs Collected 0 _)))

  finish-Adds : (job : ScanJob) (c : Collected) → Adds jobs 0 (finish r job c)
  unfolding finish
  finish-Adds job (reports list) = >>=-Adds jobs 0 0 _ _ (writes list) (λ _. delete_job-Adds job)
  finish-Adds job job_gone = return-Adds jobs 0 tt
  finish-Adds job pod_gone = delete_job-Adds job

  process_owned-Adds :
      (ref : ObjectRef) (job : ScanJob) (owner : Object)
      → Adds jobs 0 (process_owned r ref job owner)
  unfolding process_owned store_unless_reported store_results
  process_owned-Adds ref job owner = read-Adds jobs 0 _ _ (λ images. read-Adds jobs 0 _ _ (λ hash.
      read-Adds jobs 0 _ _ (λ reported. if-Adds jobs 0 reported _ _ (delete_job-Adds job) (
        >>=-Adds jobs 0 0 _ _ (collect_reports-Adds owner hash job images [])
          (λ c. finish-Adds job c)))))

  process_complete_scan_job-Adds : (job : ScanJob) → Adds jobs 0 (process_complete_scan_job r job)
  unfolding process_complete_scan_job process_of
  process_complete_scan_job-Adds job = read-Adds jobs 0 _ _ (λ ref.
      reading-Adds jobs 0 _ _ _ (λ owner. process_owned-Adds ref job owner)
        (λ e.
          if-Adds jobs 0 (is_not_found e) _ _ (delete_job-Adds job)
            (fail-Adds jobs (Unit {0}) 0 _)))

  process_failed_scan_job-Adds : (job : ScanJob) → Adds jobs 0 (process_failed_scan_job r job)
  unfolding process_failed_scan_job
  process_failed_scan_job-Adds job =
      reading-Adds jobs 0 _ _ _ (λ statuses. delete_job-Adds job)
        (λ e. if-Adds jobs 0 (is_not_found e) _ _ (return-Adds jobs 0 tt) (
          if-Adds jobs 0 (is_pod_controlled_by_job_not_found e) _ _ (delete_job-Adds job)
            (fail-Adds jobs (Unit {0}) 0 e)))

  by_condition-Adds :
      (job : ScanJob) (cs : List JobConditionType) → Adds jobs 0 (by_condition r job cs)
  unfolding by_condition
  by_condition-Adds job [] = return-Adds jobs 0 tt
  by_condition-Adds job (job_complete ∷ cs) = process_complete_scan_job-Adds job
  by_condition-Adds job (job_failed ∷ cs) = process_failed_scan_job-Adds job
  by_condition-Adds job (job_other ∷ cs) = fail-Adds jobs (Unit {0}) 0 _

  pub reconcile_jobs-Adds : (key : ObjectKey) → Adds jobs 0 (reconcile_jobs r key)
  unfolding reconcile_jobs
  reconcile_jobs-Adds key =
      reading-Adds jobs 0 _ _ _
        (λ job.
          >>=-Adds jobs 0 0 _ _ (by_condition-Adds job job.conditions)
            (λ _. return-Adds jobs 0 done))
        (λ e.
          if-Adds jobs 0 (is_not_found e) _ _ (return-Adds jobs 0 done)
            (fail-Adds jobs Outcome 0 _))
