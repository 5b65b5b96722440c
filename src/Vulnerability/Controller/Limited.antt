-- ===== src/Vulnerability/Controller/Limited.antt =====
-- The number of scan jobs over sequences of whole runs of the reconcilers and other changes between the runs.
use starboard.Prelude.{
  ℕ, suc, ◌≤◌, String, false, ◌≡◌, refl, List, [], ◌∷◌, length, none, some, if◌then◌else◌, Result,
  ok, arith, inl, inr, ap, subst,
}
use starboard.Prelude.Int.{pos, ◌≤ℤ◌}
use starboard.Prelude.Growth.{Adds, return-Adds, >>=-Adds}
use starboard.Constants.{label_k8s_app_managed_by, app_starboard}
use starboard.Kube.Object.{ObjectKey, Object}
use starboard.Kube.Server.{ScanJob}
use starboard.Operator.Config.{vulnerability_scan_jobs_in_same_namespace}
use starboard.Operator.Limit.{limit_checker, check_sound}
use starboard.Report.{VulnerabilityReport}
use starboard.Vulnerability.Controller.{Controller, Outcome, done}
use starboard.Vulnerability.Controller.Workload.{reconcile_workload}
use starboard.Vulnerability.Controller.Jobs.{reconcile_jobs}
use starboard.Vulnerability.Controller.Submit.Adds.{CountsJobs, submit_scan_job-Adds}
use starboard.Vulnerability.Controller.Jobs.Adds.{reconcile_jobs-Adds}
use starboard.Vulnerability.Controller.Scheduling.{
  Unchanged, stops, fails, waits, submission, reconcile_workload_cases,
}

module _ {S : Type 0} (r : Controller S) (jobs : S → ℕ) where
  -- The controller asks the limit checker, which lists as many jobs as there are; only the creation of a job
  -- adds one to them, and no write of reports does.
  pub record IsCounted : Type 0 where
    pub checker : r.limit_checker ≡ limit_checker r.server r.config r.settings
    pub listed :
        (s : S) (items : List ScanJob)
        → r.server.list_jobs
            ((label_k8s_app_managed_by, app_starboard) ∷ [])
            (if vulnerability_scan_jobs_in_same_namespace r.settings
              then none
              else some r.config.namespace)
            s
          ≡ ok items
        → length items ≡ jobs s
    pub counts : CountsJobs r.server jobs
    pub writes : (list : List VulnerabilityReport) → Adds jobs 0 (r.read_writer.write list)

  -- One run of a reconciler, whatever it ends with, or a change from outside that adds no scan job.
  pub data Step : S → S → Type 0 where
    workload :
        (kind : String) (key : ObjectKey) (s : S) → Step s (reconcile_workload r kind key s).1
    finished : (key : ObjectKey) (s : S) → Step s (reconcile_jobs r key s).1
    outside : (s s' : S) → jobs s' ≤ jobs s → Step s s'

  pub data Steps : S → S → Type 0 where
    no_step : (s : S) → Steps s s
    then_step : (s t s' : S) → Steps s t → Step t s' → Steps s s'

  module _ (counted : IsCounted) where
    submission-Adds : (s : S) (obj : Object) → Adds jobs 1 (submission r s obj)
    unfolding submission
    submission-Adds s obj =
        >>=-Adds jobs 1 0 _ _ (submit_scan_job-Adds r jobs counted.counts obj)
          (λ _. return-Adds jobs 0 done)

    -- Where the limit check lets a job in, there is room for it.
    room_left :
        (s : S) (n limit : ℕ)
        → r.config.concurrent_scan_jobs_limit ≡ pos limit
        → r.limit_checker.check s ≡ ok (false, n)
        → suc (jobs s) ≤ limit
    room_left s n limit is_limit checked =
        let asked = subst (λ c. c.check s ≡ ok (false, n)) counted.checker checked in
        let ((items, got, number), exact) =
          check_sound r.server r.config r.settings s false n asked in
        let fits = subst (λ x. pos (suc n) ≤ℤ x) is_limit (exact.0 refl) in
        omega (arith, number, counted.listed s items got, fits)

    Unchanged-jobs : (s : S) (out : Result Outcome × S) → Unchanged r s out → jobs out.1 ≡ jobs s
    Unchanged-jobs s out (stops e) = ap (λ p. jobs p.1) e
    Unchanged-jobs s out (fails _ e) = ap (λ p. jobs p.1) e
    Unchanged-jobs s out (waits _ _ e) = ap (λ p. jobs p.1) e

    Step-bounded :
        (s s' : S) (limit bound : ℕ)
        → r.config.concurrent_scan_jobs_limit ≡ pos limit
        → limit ≤ bound
        → jobs s ≤ bound
        → Step s s'
        → jobs s' ≤ bound
    Step-bounded _ _ limit bound is_limit over before (workload kind key s) =
        elim (reconcile_workload_cases r s kind key) [
          | inl same ↦
              omega (arith, before, Unchanged-jobs s (reconcile_workload r kind key s) same)
          | inr scans ↦
              let one = submission-Adds s scans.obj s in
              let room = room_left s scans.needed.count limit is_limit scans.needed.room in
              let ends = ap (λ p. jobs p.1) scans.submitted in omega (arith, over, one, room, ends)
        ]
    Step-bounded _ _ limit bound is_limit over before (finished key s) =
        omega (arith, before, reconcile_jobs-Adds r jobs counted.counts counted.writes key s)
    Step-bounded _ _ limit bound is_limit over before (outside s s' fewer) =
        omega (arith, before, fewer)

    -- Whatever sequence of runs of the reconcilers and of other changes that add no scan job leads from one state to
    -- another: a bound on the number of scan jobs that is not below the limit stays one.
    pub Steps-bounded :
        (s s' : S) (limit bound : ℕ)
        → r.config.concurrent_scan_jobs_limit ≡ pos limit
        → limit ≤ bound
        → jobs s ≤ bound
        → Steps s s'
        → jobs s' ≤ bound
    Steps-bounded _ _ limit bound is_limit over before (no_step s) = before
    Steps-bounded _ _ limit bound is_limit over before (then_step s t s' steps step) =
        Step-bounded t s' limit bound is_limit over
          (Steps-bounded s t limit bound is_limit over before steps) step
