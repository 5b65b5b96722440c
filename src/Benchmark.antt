-- ===== src/Benchmark.antt =====
-- Benchmarks of nodes: the reports of pkg/kubebench with their store (io.go), their builder (builder.go), and
-- what the kube-bench plugin of scanner.go makes of the output of the tool.
pub mod Nodes
pub mod Jobs
use starboard.Prelude.{
  String, ℕ, ◌+◌, List, [], ◌∷◌, Option, none, some, false, Map, if◌then◌else◌, Result, ok, err,
  is_not_found, wrap, ◌>>=◌,
}
use starboard.Prelude.Action.{Action, fail, reading, handle}
use starboard.Constants.{label_resource_kind, label_resource_name}
use starboard.Kube.Object.{ObjectMeta, ObjectKey, PodSpec}
use starboard.Kube.Server.{Server}
use starboard.ConfigAudit.{Scanner}

pub record KubeBenchSummary : Type 0 where
  pub pass_count : ℕ
  pub info_count : ℕ
  pub warn_count : ℕ
  pub fail_count : ℕ

-- A section of the output, with its totals; its tests are passed on as they are.
pub record KubeBenchSection : Type 0 where
  pub id : String
  pub total_pass : ℕ
  pub total_info : ℕ
  pub total_warn : ℕ
  pub total_fail : ℕ

pub record KubeBenchReportData : Type 0 where
  pub scanner : Scanner
  pub summary : KubeBenchSummary
  pub sections : List KubeBenchSection

pub record KubeBenchReport : Type 0 where
  pub meta : ObjectMeta
  pub report : KubeBenchReportData

-- The API server as far as nodes and their reports go; both are found by their names alone.
pub record BenchServer (S : Type 0) : Type 0 where
  pub base : Server S
  pub get_node : ObjectKey → S → Result ObjectMeta
  pub get_report : String → S → Result KubeBenchReport
  pub create_report : KubeBenchReport → Action S (Unit {0})
  pub update_report : KubeBenchReport → Action S (Unit {0})

-- The interface Plugin.
pub record BenchPlugin : Type 0 where
  pub get_scan_job_spec : ObjectMeta → Result PodSpec
  pub parse_report_data : String → Result KubeBenchReportData
  pub container_name : String

module _ {S : Type 0} (server : BenchServer S) where
  unfoldable pub write_bench : KubeBenchReport → Action S (Unit {0})
  write_bench report =
      handle (reading (server.get_report report.meta.name))
        (λ existing. server.update_report (record {
          meta = record existing.meta { labels = report.meta.labels };
          report = report.report;
        }))
        (λ e. if is_not_found e then server.create_report report else fail e)

  unfoldable pub find_bench : String → S → Result (Option KubeBenchReport)
  find_bench name s = elim (server.get_report name s) [
    | ok report ↦ ok (some report)
    | err e ↦ if is_not_found e then ok none else err e
  ]

-- Builder.Get; `kind_for` is KindForObject, and `own` SetControllerReference.
unfoldable pub build_bench :
    (ObjectMeta → Result String)
    → (ObjectMeta → KubeBenchReport → Result KubeBenchReport)
    → ObjectMeta
    → KubeBenchReportData
    → Result KubeBenchReport
build_bench kind_for own node output = do
  kind ← wrap "getting kind for object" (kind_for node)
  wrap "setting controller reference" (
      own node (record {
        meta = record {
          name = node.name;
          namespace = node.namespace;
          labels = (label_resource_kind, kind) ∷ (label_resource_name, node.name) ∷ [];
          annotations = [];
          controller = none;
          deleted = false;
        };
        report = output;
      }))

add_totals : List KubeBenchSection → KubeBenchSummary → KubeBenchSummary
add_totals [] total = total
add_totals (section ∷ sections) total = add_totals sections (record {
  pass_count = total.pass_count + section.total_pass;
  info_count = total.info_count + section.total_info;
  warn_count = total.warn_count + section.total_warn;
  fail_count = total.fail_count + section.total_fail;
})

-- kubeBenchPlugin.summary
unfoldable pub bench_summary : List KubeBenchSection → KubeBenchSummary
unfolding add_totals
bench_summary sections =
    add_totals sections (record { pass_count = 0; info_count = 0; warn_count = 0; fail_count = 0 })

-- ParseCISKubeBenchReportData; the JSON decoder, the image of the settings and the version in an image's
-- reference are parameters.
unfoldable pub parse_bench_output :
    (String → Result (List KubeBenchSection))
    → Result String
    → (String → Result String)
    → String
    → Result KubeBenchReportData
unfolding bench_summary
parse_bench_output sections_from_json image_ref version_of logs = do
  sections ← sections_from_json logs
  image ← image_ref
  version ← version_of image
  ok (record {
    scanner = record { name = "kube-bench"; vendor = "Aqua Security"; version = version };
    summary = bench_summary sections;
    sections = sections;
  })
