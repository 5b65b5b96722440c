-- ===== src/Tests/Benchmark.antt =====
-- A benchmark of a node whose output the plugin cannot read, on a server without reports.
use starboard.Prelude.{false, [], ◌∷◌, none, ok, err, message}
use starboard.Constants.{label_resource_kind, label_resource_name}
use starboard.Kube.Server.{ScanJob}
use starboard.Benchmark.{BenchServer, build_bench}
use starboard.Benchmark.Nodes.{BenchReconciler}
use starboard.Tests.Data.{meta_of, missing, web_spec}
use starboard.Tests.Audit.{Audits, base}
use starboard.Tests.Scans.{config, web_job}

abbrev bench_server : BenchServer Audits
bench_server = record {
  base = base;
  get_node = λ key s. ok (meta_of key.name [] [] none);
  get_report = λ name s. missing;
  create_report = λ report s. (ok tt, s);
  update_report = λ report s. (ok tt, s);
}

abbrev bench : BenchReconciler Audits
bench = record {
  config = config;
  settings = [];
  server = bench_server;
  limit_checker = record { check = λ s. ok (false, 0) };
  logs = λ job container s. ok "no JSON";
  terminated = λ job s. ok tt;
  tolerations = ok [];
  plugin = record {
    get_scan_job_spec = λ node. ok web_spec;
    parse_report_data = λ logs. err (message "invalid character");
    container_name = "kube-bench";
  };
  hash_name = λ name. name;
  build = build_bench (λ node. ok "Node") (λ node report. ok report);
}

abbrev node_job : ScanJob
node_job = record web_job {
  meta =
      meta_of "scan-cisbenchmark-node-1"
        ((label_resource_kind, "Node") ∷ (label_resource_name, "node-1") ∷ []) [] none;
}
