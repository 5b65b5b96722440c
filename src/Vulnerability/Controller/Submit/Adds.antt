-- ===== src/Vulnerability/Controller/Submit/Adds.antt =====
-- By how many can submitScanJob enlarge the number of jobs?
use starboard.Prelude.{ℕ, Bool, true, false, List, [], ◌∷◌, is_already_exists}
use starboard.Prelude.Growth.{
  Adds, return-Adds, fail-Adds, if-Adds, handle-Adds, reading-Adds, >>=-Adds, read-Adds,
}
use starboard.Kube.Object.{Object, ObjectKey}
use starboard.Kube.Server.{Server, ScanJob, Secret}
use starboard.Vulnerability.Controller.{Controller, ignorable}
use starboard.Vulnerability.Controller.Submit.{
  create_secrets, own_secrets, create_job, submit_built, submit_scan_job,
}

-- How the calls of the server change the number of jobs: only the creation of a job adds one.
pub record CountsJobs {S : Type 0} (server : Server S) (jobs : S → ℕ) : Type 0 where
  pub on_create_job : (job : ScanJob) → Adds jobs 1 (server.create_job job)
  pub on_create_secret : (secret : Secret) → Adds jobs 0 (server.create_secret secret)
  pub on_update_secret : (secret : Secret) → Adds jobs 0 (server.update_secret secret)
  pub on_delete_job : (key : ObjectKey) → Adds jobs 0 (server.delete_job key)

module _ {S : Type 0} (r : Controller S) (jobs : S → ℕ) (counts : CountsJobs r.server jobs) where
  create_secrets-Adds : (secrets : List Secret) → Adds jobs 0 (create_secrets r secrets)
  unfolding create_secrets
  create_secrets-Adds [] = return-Adds jobs 0 true
  create_secrets-Adds (secret ∷ secrets) =
      handle-Adds jobs 0 0 _ _ _ (counts.on_create_secret secret) (λ _. create_secrets-Adds secrets)
        (λ e.
          if-Adds jobs 0 (is_already_exists e) _ _ (return-Adds jobs 0 false)
            (fail-Adds jobs Bool 0 _))

  own_secrets-Adds :
      (job : ScanJob) (secrets : List Secret) → Adds jobs 0 (own_secrets r job secrets)
  unfolding own_secrets
  own_secrets-Adds job [] = return-Adds jobs 0 tt
  own_secrets-Adds job (secret ∷ secrets) =
      reading-Adds jobs 0 _ _ _
        (λ owned.
          handle-Adds jobs 0 0 _ _ _ (counts.on_update_secret owned)
            (λ _. own_secrets-Adds job secrets) (λ e. fail-Adds jobs (Unit {0}) 0 _))
        (λ e. fail-Adds jobs (Unit {0}) 0 e)

  create_job-Adds : (job : ScanJob) (secrets : List Secret) → Adds jobs 1 (create_job r job secrets)
  unfolding create_job
  create_job-Adds job secrets =
      handle-Adds jobs 1 0 _ _ _ (counts.on_create_job job) (λ _. own_secrets-Adds job secrets)
        (λ e.
          if-Adds jobs 0 (is_already_exists e) _ _ (return-Adds jobs 0 tt)
            (fail-Adds jobs (Unit {0}) 0 _))

  submit_built-Adds : (built : ScanJob × List Secret) → Adds jobs 1 (submit_built r built)
  unfolding submit_built
  submit_built-Adds (job, secrets) =
      >>=-Adds jobs 0 1 _ _ (create_secrets-Adds secrets)
        (λ go_on. if-Adds jobs 1 go_on _ _ (create_job-Adds job secrets) (return-Adds jobs 1 tt))

  pub submit_scan_job-Adds : (owner : Object) → Adds jobs 1 (submit_scan_job r owner)
  unfolding submit_scan_job
  submit_scan_job-Adds owner = read-Adds jobs 1 _ _ (λ credentials.
      read-Adds jobs 1 _ _ (λ tolerations. read-Adds jobs 1 _ _ (λ annotations.
        read-Adds jobs 1 _ _ (λ labels.
          reading-Adds jobs 1 _ _ _ (λ built. submit_built-Adds built)
            (λ e.
              if-Adds jobs 1 (ignorable e) _ _ (return-Adds jobs 1 tt)
                (fail-Adds jobs (Unit {0}) 1 _))))))
