-- ===== src/Vulnerability/Controller/Results.antt =====
-- What becomes of the results of a complete scan job, and when the job is deleted without a report.
use starboard.Prelude.{
  String, true, false, ◌≡◌, refl, List, [], ◌∷◌, ◌++◌, Map, lookup, inl, inr, Result, ok, err,
  wrap_ok, or_error_ok, some, append-nil, append_assoc, is_not_found, Bool-cases, Error,
}
use starboard.Prelude.Action.{
  Action, ◌>>◌, return, fail, handle-reading, >>=-reading, >>=-ok, >>=-err,
}
use starboard.Constants.{label_resource_spec_hash}
use starboard.Kube.Object.{Object, ObjectRef}
use starboard.Kube.Reference.{object_ref_from_object_meta}
use starboard.Kube.Resolver.{object_from_object_ref}
use starboard.Kube.Server.{ScanJob}
use starboard.Report.{VulnerabilityReport}
use starboard.Vulnerability.Controller.{
  Controller, has_reports, delete_job, is_pod_controlled_by_job_not_found,
}
use starboard.Vulnerability.Controller.Jobs.{
  Collected, reports, job_gone, pod_gone, get_container_images_from_job, report_from_logs,
  collect_reports, finish, store_results, store_unless_reported, process_owned, process_of,
  process_complete_scan_job,
}

module _ {S : Type 0} (r : Controller S) (s : S) where
  module _ (owner : Object) (hash : String) (job : ScanJob) where
    -- One report for each container, in order, made from the logs of that very container.
    pub data Made : Map String → List VulnerabilityReport → Type 0 where
      none_left : Made [] []
      made :
          (container image logs : String) (report : VulnerabilityReport) (images : Map String)
          (list : List VulnerabilityReport)
          → r.logs job container s ≡ ok logs
          → report_from_logs r owner hash container image logs ≡ ok report
          → Made images list
          → Made ((container, image) ∷ images) (report ∷ list)

    -- The ways out of the loop over the containers, none of which changes the server.
    data Collects (images : Map String) (collected : List VulnerabilityReport)
        (out : Result Collected × S) : Type 0 where
      all_read :
          (list : List VulnerabilityReport)
          → Made images list
          → out ≡ (ok (reports (collected ++ list)), s)
          → Collects images collected out
      gone :
          (container : String) (e : Error)
          → r.logs job container s ≡ err e
          → is_not_found e ≡ true
          → out ≡ (ok job_gone, s)
          → Collects images collected out
      pods_gone :
          (container : String) (e : Error)
          → r.logs job container s ≡ err e
          → is_pod_controlled_by_job_not_found e ≡ true
          → out ≡ (ok pod_gone, s)
          → Collects images collected out
      failed : (e : Error) → out ≡ (err e, s) → Collects images collected out

    collect_reports_cases :
        (images : Map String) (collected : List VulnerabilityReport)
        → Collects images collected (collect_reports r owner hash job images collected s)
    unfolding collect_reports return fail
    collect_reports_cases [] collected = all_read [] none_left (simp append-nil)
    collect_reports_cases ((container, image) ∷ images) collected =
        handle-reading (Collects ((container, image) ∷ images) collected) _ _ _ s
          (λ logs got.
            >>=-reading (Collects ((container, image) ∷ images) collected) _ _ s
              (λ report parsed. elim (collect_reports_cases images (collected ++ report ∷ [])) [
                | all_read list rest out ↦
                    all_read (report ∷ list)
                      (made container image logs report images list got parsed rest)
                      (simp append_assoc at out)
                | gone c e bad is out ↦ gone c e bad is out
                | pods_gone c e bad is out ↦ pods_gone c e bad is out
                | failed e out ↦ failed e out
              ])
              (λ e bad. failed e refl))
          (λ e bad. elim (Bool-cases (is_not_found e)) [
            | inl p ↦ rw p (gone container e bad p refl)
            | inr p ↦ rw p (elim (Bool-cases (is_pod_controlled_by_job_not_found e)) [
              | inl q ↦ rw q (pods_gone container e bad q refl)
              | inr q ↦ rw q (failed _ refl)
            ])
          ])

  -- What the job tells of the scan, with the workload as it is now.
  pub record Known (job : ScanJob) (ref : ObjectRef) (owner : Object) (images : Map String)
      (hash : String) : Type 0 where
    pub ref_read : object_ref_from_object_meta job.meta ≡ ok ref
    pub found : object_from_object_ref (r.server.cluster s) ref ≡ ok owner
    pub images_read : get_container_images_from_job r job ≡ ok images
    pub hash_read : lookup label_resource_spec_hash job.meta.labels ≡ some hash

  -- The write of the reports, and then the deletion of the job.
  unfoldable pub write_then_delete : ScanJob → List VulnerabilityReport → Action S (Unit {0})
  write_then_delete job list = do r.read_writer.write list; delete_job r job

  -- What a run may end with. Only the last four may touch the server.
  pub data Processed (job : ScanJob) (out : Result (Unit {0}) × S) : Type 0 where
    logs_gone :
        (container : String) (e : Error)
        → r.logs job container s ≡ err e
        → is_not_found e ≡ true
        → out ≡ (ok tt, s)
        → Processed job out
    fails : (e : Error) → out ≡ (err e, s) → Processed job out
    no_owner :
        (ref : ObjectRef) (e : Error)
        → object_ref_from_object_meta job.meta ≡ ok ref
        → object_from_object_ref (r.server.cluster s) ref ≡ err e
        → is_not_found e ≡ true
        → out ≡ delete_job r job s
        → Processed job out
    reported_before :
        (ref : ObjectRef) (owner : Object) (images : Map String) (hash : String)
        → Known job ref owner images hash
        → has_reports r ref hash images s ≡ ok true
        → out ≡ delete_job r job s
        → Processed job out
    no_pod :
        (container : String) (e : Error)
        → r.logs job container s ≡ err e
        → is_pod_controlled_by_job_not_found e ≡ true
        → out ≡ delete_job r job s
        → Processed job out
    stores :
        (ref : ObjectRef) (owner : Object) (images : Map String) (hash : String)
        (list : List VulnerabilityReport)
        → Known job ref owner images hash
        → has_reports r ref hash images s ≡ ok false
        → Made owner hash job images list
        → out ≡ write_then_delete job list s
        → Processed job out

  store_unless_reported_cases :
      (job : ScanJob) (ref : ObjectRef) (owner : Object) (images : Map String) (hash : String)
      → Known job ref owner images hash
      → Processed job (store_unless_reported r ref owner job images hash s)
  unfolding store_unless_reported store_results finish write_then_delete return fail
  store_unless_reported_cases job ref owner images hash known =
      >>=-reading (Processed job) _ _ s
        (λ reported asked. elim (Bool-cases reported) [
          | inl p ↦ rw p (reported_before ref owner images hash known (rw p at asked) refl)
          | inr p ↦ rw p (elim (collect_reports_cases owner hash job images []) [
            | all_read list all out ↦
                stores ref owner images hash list known (rw p at asked) all (>>=-ok _ _ _ _ _ out)
            | gone c e bad is out ↦ logs_gone c e bad is (>>=-ok _ _ _ _ _ out)
            | pods_gone c e bad is out ↦ no_pod c e bad is (>>=-ok _ _ _ _ _ out)
            | failed e out ↦ fails e (>>=-err _ _ _ _ _ out)
          ])
        ])
        (λ e bad. fails e refl)

  process_owned_cases :
      (job : ScanJob) (ref : ObjectRef) (owner : Object)
      → object_ref_from_object_meta job.meta ≡ ok ref
      → object_from_object_ref (r.server.cluster s) ref ≡ ok owner
      → Processed job (process_owned r ref job owner s)
  unfolding process_owned fail
  process_owned_cases job ref owner ref_read found =
      >>=-reading (Processed job) _ _ s
        (λ images got.
          >>=-reading (Processed job) _ _ s
            (λ hash has. store_unless_reported_cases job ref owner images hash (record {
              ref_read = ref_read;
              found = found;
              images_read = wrap_ok _ _ _ got;
              hash_read = or_error_ok _ _ _ has;
            }))
            (λ e bad. fails e refl))
        (λ e bad. fails e refl)

  -- A run of processCompleteScanJob changes the server only by deleting the job, after the owner is gone,
  -- its reports are all there, or the job's pod is gone; or by first writing reports, one for each
  -- container that the job names and made from the logs of that container, for the owner and the pod spec
  -- that the job names, and deleting the job once they are written.
  pub process_complete_scan_job_cases :
      (job : ScanJob) → Processed job (process_complete_scan_job r job s)
  unfolding process_complete_scan_job process_of fail
  process_complete_scan_job_cases job =
      >>=-reading (Processed job) _ _ s
        (λ ref read.
          handle-reading (Processed job) _ _ _ s
            (λ owner found. process_owned_cases job ref owner (wrap_ok _ _ _ read) found)
            (λ e missing. elim (Bool-cases (is_not_found e)) [
              | inl p ↦ rw p (no_owner ref e (wrap_ok _ _ _ read) missing p refl)
              | inr p ↦ rw p (fails _ refl)
            ]))
        (λ e bad. fails e refl)
