-- ===== src/Benchmark/Jobs.antt =====
-- CISKubeBenchReportReconciler: the reconciler of jobs.
pub mod Outcomes
use starboard.Prelude.{
  String, Bool, List, [], ◌∷◌, if◌then◌else◌, Error, message, wrapped, Result, ok, err,
  is_not_found, wrap,
}
use starboard.Prelude.Action.{Action, return, fail, reading, handle, ◌>>=◌, ◌>>◌}
use starboard.Kube.Object.{ObjectMeta, ObjectRef, ObjectKey}
use starboard.Kube.Reference.{object_ref_from_object_meta}
use starboard.Kube.Server.{
  JobConditionType, job_complete, job_failed, job_other, ScanJob, Outcome, done, key_of,
}
use starboard.Vulnerability.Controller.{is_pod_controlled_by_job_not_found}
use starboard.Benchmark.{KubeBenchReportData, write_bench}
use starboard.Benchmark.Nodes.{BenchReconciler, has_bench_report}

-- CISKubeBenchReportData{}
abbrev pub no_data : KubeBenchReportData
no_data = record {
  scanner = record { name = ""; vendor = ""; version = "" };
  summary = record { pass_count = 0; info_count = 0; warn_count = 0; fail_count = 0 };
  sections = [];
}

-- What ParseCISKubeBenchReportData returns beside its error, which the reconciler does not look at.
abbrev pub output_of : Result KubeBenchReportData → KubeBenchReportData
output_of (ok output) = output
output_of (err e) = no_data

module _ {S : Type 0} (r : BenchReconciler S) where
  unfoldable pub delete_bench_job : ScanJob → Action S (Unit {0})
  delete_bench_job job =
      handle (r.server.base.delete_job (key_of job.meta)) return
        (λ e. if is_not_found e then return tt else fail (wrapped "deleting job" e))

  -- From the output on.
  unfoldable pub store_output : ObjectMeta → ScanJob → KubeBenchReportData → Action S (Unit {0})
  unfolding delete_bench_job
  store_output node job output = do
    report ← reading (λ s. wrap "building report" (r.build node output))
    handle (write_bench r.server report) (λ _. delete_bench_job job)
        (λ e. fail (wrapped "writing report" e))

  -- From the logs on.
  unfoldable pub store_bench_logs : ObjectMeta → ScanJob → Action S (Unit {0})
  unfolding store_output
  store_bench_logs node job =
      handle (reading (r.logs job r.plugin.container_name))
        (λ logs. store_output node job (output_of (r.plugin.parse_report_data logs)))
        (λ e.
          if is_not_found e
          then return tt
          else if is_pod_controlled_by_job_not_found e
          then delete_bench_job job
          else fail (wrapped "getting logs" e))

  -- From the look at the report on.
  unfoldable pub store_unless_there : ObjectMeta → ScanJob → Action S (Unit {0})
  unfolding store_bench_logs
  store_unless_there node job = do
    reported ← reading (λ s. wrap "checking whether report exists" (has_bench_report r node s))
    if reported then delete_bench_job job else store_bench_logs node job

  -- From the reference to the node on.
  unfoldable pub process_bench_of : ScanJob → ObjectRef → Action S (Unit {0})
  unfolding store_unless_there
  process_bench_of job ref =
      handle (reading (r.server.get_node (record { name = ref.name; namespace = "" })))
        (λ node. store_unless_there node job)
        (λ e.
          if is_not_found e
          then delete_bench_job job
          else fail (wrapped "getting node from cache" e))

  unfoldable pub process_complete_bench : ScanJob → Action S (Unit {0})
  unfolding process_bench_of
  process_complete_bench job = do
    ref ← reading (λ s.
        wrap "getting owner ref from scan job metadata" (object_ref_from_object_meta job.meta))
    process_bench_of job ref

  unfoldable pub process_failed_bench : ScanJob → Action S (Unit {0})
  process_failed_bench job =
      handle (reading (r.terminated job)) (λ statuses. delete_bench_job job)
        (λ e.
          if is_not_found e
          then return tt
          else if is_pod_controlled_by_job_not_found e
          then delete_bench_job job
          else fail e)

  by_condition : ScanJob → List JobConditionType → Action S (Unit {0})
  by_condition job [] = return tt
  by_condition job (job_complete ∷ conditions) = process_complete_bench job
  by_condition job (job_failed ∷ conditions) = process_failed_bench job
  by_condition job (job_other ∷ conditions) = fail (message "unrecognized job condition")

  unfoldable pub reconcile_bench_jobs : ObjectKey → Action S Outcome
  unfolding by_condition
  reconcile_bench_jobs key =
      handle (reading (r.server.base.get_job key))
        (λ job. do by_condition job job.conditions; return done)
        (λ e. if is_not_found e then return done else fail (wrapped "getting job from cache" e))
