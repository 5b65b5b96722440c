-- ===== src/Benchmark/Jobs/Outcomes.antt =====
-- What becomes of a complete job of a benchmark.
use starboard.Prelude.{
  String, true, false, ◌≡◌, Result, ok, err, wrapped, is_not_found, Error, Bool, Option, is_some,
}
use starboard.Prelude.Action.{fail, handle}
use starboard.Kube.Object.{ObjectMeta, ObjectRef}
use starboard.Kube.Reference.{object_ref_from_object_meta}
use starboard.Kube.Server.{ScanJob}
use starboard.Vulnerability.Controller.{is_pod_controlled_by_job_not_found}
use starboard.Benchmark.{KubeBenchReport, KubeBenchReportData, write_bench, find_bench}
use starboard.Benchmark.Nodes.{BenchReconciler}
use starboard.Benchmark.Jobs.{no_data, delete_bench_job}

module _ {S : Type 0} (r : BenchReconciler S) (s : S) (job : ScanJob) where
  -- The node that the job's own reference names.
  pub record IsNodeOf (node : ObjectMeta) : Type 0 where
    pub ref : ObjectRef
    pub referred : object_ref_from_object_meta job.meta ≡ ok ref
    pub there : r.server.get_node (record { name = ref.name; namespace = "" }) s ≡ ok node

  -- What the store finds under the name of the node.
  pub record Reported (node : ObjectMeta) (answer : Bool) : Type 0 where
    pub found : Option KubeBenchReport
    pub read : find_bench r.server node.name s ≡ ok found
    pub same : is_some found ≡ answer

  -- Why the job is deleted without a report.
  pub data Superfluous : Type 0 where
    node_gone :
        (ref : ObjectRef) (e : Error)
        → object_ref_from_object_meta job.meta ≡ ok ref
        → r.server.get_node (record { name = ref.name; namespace = "" }) s ≡ err e
        → is_not_found e ≡ true
        → Superfluous
    report_there : (node : ObjectMeta) → IsNodeOf node → Reported node true → Superfluous
    pod_gone :
        (e : Error)
        → r.logs job r.plugin.container_name s ≡ err e
        → is_pod_controlled_by_job_not_found e ≡ true
        → Superfluous

  -- The report is written, and then the job is deleted.
  abbrev pub Writes : ObjectMeta → KubeBenchReportData → Result (Unit {0}) × S → Type 0
  Writes node output out =
      (report : KubeBenchReport) × (r.build node output ≡ ok report)
      × (out
          ≡ handle (write_bench r.server report) (λ _. delete_bench_job r job)
              (λ e. fail (wrapped "writing report" e)) s)

  pub data Handled (out : Result (Unit {0}) × S) : Type 0 where
    logs_gone :
        (e : Error)
        → r.logs job r.plugin.container_name s ≡ err e
        → is_not_found e ≡ true
        → out ≡ (ok tt, s)
        → Handled out
    fails : (e : Error) → out ≡ (err e, s) → Handled out
    deletes : Superfluous → out ≡ delete_bench_job r job s → Handled out
    stores :
        (node : ObjectMeta) (logs : String) (output : KubeBenchReportData)
        → IsNodeOf node
        → Reported node false
        → r.logs job r.plugin.container_name s ≡ ok logs
        → r.plugin.parse_report_data logs ≡ ok output
        → Writes node output out
        → Handled out
    stores_nothing :
        (node : ObjectMeta) (logs : String) (e : Error)
        → IsNodeOf node
        → Reported node false
        → r.logs job r.plugin.container_name s ≡ ok logs
        → r.plugin.parse_report_data logs ≡ err e
        → Writes node no_data out
        → Handled out
