-- ===== src/Tests/Limited.antt =====
-- The limit on scan jobs on the small server, where a job is scheduled and another is finished.
use starboard.Prelude.{
  ℕ, ◌≤◌, refl, List, [], ◌∷◌, length, arith, is_not_found, ap, sym, ok_injective,
}
use starboard.Prelude.Growth.{Adds, return-Adds, fail-Adds, if-Adds, handle-Adds, reading-Adds}
use starboard.Kube.Kind
use starboard.Kube.Object.{ObjectKey}
use starboard.Kube.Server.{ScanJob, key_of}
use starboard.Report.{VulnerabilityReport}
use starboard.Vulnerability.Store.{create_or_update, write}
use starboard.Vulnerability.Controller.Workload.{reconcile_workload}
use starboard.Vulnerability.Controller.Jobs.{reconcile_jobs}
use starboard.Vulnerability.Controller.Submit.Adds.{CountsJobs}
use starboard.Vulnerability.Controller.Limited.{
  IsCounted, Steps, no_step, then_step, workload, finished, Steps-bounded,
}
use starboard.Tests.Server.{State, server, but}
use starboard.Tests.Scans.{controller, idle, web_key, web_job}

abbrev jobs : State → ℕ
jobs s = length s.jobs

length-but : (key : ObjectKey) (list : List ScanJob) → length (but key list) ≤ length list
length-but key [] = omega arith
length-but key (job ∷ list) = ground (arith, length-but key list)

counts : CountsJobs server jobs
counts = record {
  on_create_job = λ job s. omega arith;
  on_create_secret = λ secret s. omega arith;
  on_update_secret = λ secret s. omega arith;
  on_delete_job = λ key s. omega (arith, length-but key s.jobs);
}

create_or_update-Adds : (rep : VulnerabilityReport) → Adds jobs 0 (create_or_update server rep)
unfolding create_or_update
create_or_update-Adds rep =
    reading-Adds jobs 0 _ _ _ (λ existing s. omega arith)
      (λ e. if-Adds jobs 0 (is_not_found e) _ _ (λ s. omega arith) (fail-Adds jobs (Unit {0}) 0 e))

write-Adds : (list : List VulnerabilityReport) → Adds jobs 0 (write server list)
unfolding write
write-Adds [] = return-Adds jobs 0 tt
write-Adds (rep ∷ list) =
    handle-Adds jobs 0 0 _ _ _ (create_or_update-Adds rep) (λ _. write-Adds list)
      (λ e. fail-Adds jobs (Unit {0}) 0 e)

counted : IsCounted (controller []) jobs
counted = record {
  checker = refl;
  listed = λ s items h. ap length (sym (ok_injective h));
  counts = counts;
  writes = write-Adds;
}

abbrev scheduled : State
scheduled = (reconcile_workload (controller []) Kind.pod web_key idle).1

abbrev over : State
over = (reconcile_jobs (controller []) (key_of web_job.meta) scheduled).1

two_runs : Steps (controller []) jobs idle over
two_runs =
    then_step idle scheduled over
      (then_step idle idle scheduled (no_step idle) (workload Kind.pod web_key idle))
      (finished (key_of web_job.meta) scheduled)

limited_example : jobs over ≤ 1
limited_example =
    Steps-bounded (controller []) jobs counted idle over 1 1 refl (omega arith) (omega arith)
      two_runs
