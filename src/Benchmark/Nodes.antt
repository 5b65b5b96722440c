-- ===== src/Benchmark/Nodes.antt =====
-- CISKubeBenchReportReconciler of pkg/operator/controller/ciskubebenchreport.go: the reconciler of nodes.
use starboard.Prelude.{
  String, Bool, List, [], ◌∷◌, ◌++◌, Option, none, some, false, Map, insert_all, is_some,
  if◌then◌else◌, concat, wrapped, Result, ok, err, is_not_found, is_already_exists, wrap,
}
use starboard.Prelude
use starboard.Prelude.Action.{Action, return, fail, reading, handle, ◌>>=◌}
use starboard.Constants.{
  label_resource_kind, label_resource_name, label_k8s_app_managed_by, app_starboard,
  label_kube_bench_report_scanner,
}
use starboard.Kube.Object.{ObjectMeta, ObjectKey, PodSpec, Labels}
use starboard.Kube.Server.{Outcome, done, ScanJob}
use starboard.Operator.Config.{
  Config, ConfigData, get_scan_job_annotations, get_scan_job_pod_template_labels,
}
use starboard.Operator.Limit.{LimitChecker}
use starboard.Vulnerability.Builder.{get_active_deadline_seconds}
use starboard.Benchmark.{BenchServer, BenchPlugin, KubeBenchReport, KubeBenchReportData, find_bench}

-- What the reconciler struct embeds; `build` is the builder of reports, and `hash_name` kube.ComputeHash of a name.
pub record BenchReconciler (S : Type 0) : Type 0 where
  pub config : Config
  pub settings : ConfigData
  pub server : BenchServer S
  pub limit_checker : LimitChecker S
  pub logs : ScanJob → String → S → Result String
  pub terminated : ScanJob → S → Result (Unit {0})
  pub tolerations : Result (List String)
  pub plugin : BenchPlugin
  pub hash_name : String → String
  pub build : ObjectMeta → KubeBenchReportData → Result KubeBenchReport

module _ {S : Type 0} (r : BenchReconciler S) where
  unfoldable pub has_bench_report : ObjectMeta → S → Result Bool
  has_bench_report node s =
      Prelude.◌>>=◌ (find_bench r.server node.name s) (λ report. ok (is_some report))

  unfoldable pub bench_job_name : ObjectMeta → String
  bench_job_name node = concat "scan-cisbenchmark-" (r.hash_name node.name)

  unfoldable pub has_scan_job : ObjectMeta → S → Result (Option ScanJob)
  unfolding bench_job_name
  has_scan_job node s =
      elim (r.server.base.get_job
        (record { name = bench_job_name node; namespace = r.config.namespace }) s) [
          | ok job ↦ ok (some job)
          | err e ↦ if is_not_found e then ok none else err (wrapped "getting job from cache" e)
        ]

  bench_labels : ObjectMeta → Labels
  bench_labels node =
      (label_resource_kind, "Node")
      ∷ (label_resource_name, node.name)
      ∷ (label_k8s_app_managed_by, app_starboard)
      ∷ (label_kube_bench_report_scanner, "true")
      ∷ []

  -- The Job literal of newScanJob.
  bench_job : ObjectMeta → PodSpec → List String → Map String → Map String → ScanJob
  unfolding bench_labels bench_job_name
  bench_job node spec tolerations annotations labels = record {
    meta = record {
      name = bench_job_name node;
      namespace = r.config.namespace;
      labels = bench_labels node;
      annotations = [];
      controller = none;
      deleted = false;
    };
    conditions = [];
    active_deadline_seconds = get_active_deadline_seconds r.config.scan_job_timeout;
    template = record {
      meta = record {
        name = "";
        namespace = "";
        labels = insert_all labels (insert_all (bench_labels node) []);
        annotations = annotations;
        controller = none;
        deleted = false;
      };
      spec = record spec {
        service_account_name = r.config.service_account;
        tolerations = spec.tolerations ++ tolerations;
      };
    };
  }

  unfoldable pub new_scan_job : ObjectMeta → Result ScanJob
  unfolding bench_job
  new_scan_job node = Prelude.◌>>=◌ (r.plugin.get_scan_job_spec node) (λ spec.
      Prelude.◌>>=◌ r.tolerations (λ tolerations.
        Prelude.◌>>=◌ (get_scan_job_annotations r.settings) (λ annotations.
          Prelude.◌>>=◌ (get_scan_job_pod_template_labels r.settings)
            (λ labels. ok (bench_job node spec tolerations annotations labels)))))

  -- From the limit check on.
  unfoldable pub schedule_bench : ObjectMeta → Action S Outcome
  unfolding new_scan_job
  schedule_bench node = do
    limit ← reading r.limit_checker.check
    if limit.0 then return (record { requeue_after = r.config.scan_job_retry_after }) else (do
      job ← reading (λ s. wrap "preparing job" (new_scan_job node))
      handle (r.server.base.create_job job) (λ _. return done)
          (λ e. if is_already_exists e then return done else fail (wrapped "creating job" e)))

  -- From the look at the report on.
  unfoldable pub bench_unless_there : ObjectMeta → Action S Outcome
  unfolding schedule_bench has_scan_job has_bench_report
  bench_unless_there node = do
    reported ← reading (λ s. wrap "checking whether report exists" (has_bench_report node s))
    if reported then return done else (do
      job ← reading (λ s. wrap "checking whether scan job has been scheduled" (has_scan_job node s))
      if is_some job then return done else schedule_bench node)

  unfoldable pub reconcile_nodes : ObjectKey → Action S Outcome
  unfolding bench_unless_there
  reconcile_nodes key =
      handle (reading (r.server.get_node key)) (λ node. bench_unless_there node)
        (λ e. if is_not_found e then return done else fail (wrapped "getting node from cache" e))
