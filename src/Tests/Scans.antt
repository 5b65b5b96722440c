-- ===== src/Tests/Scans.antt =====
-- A controller of the small server, with a scanner that finds nothing, and what it builds for the Pod.
use starboard.Prelude.{String, true, false, List, [], ◌∷◌, none, some, ok}
use starboard.Prelude.Int.{pos}
use starboard.Constants.{
  label_resource_kind, label_resource_name, label_resource_namespace, label_resource_spec_hash,
  label_container_name, annotation_container_images,
}
use starboard.Kube.Object.{ObjectKey}
use starboard.Kube.Server.{ScanJob, Secret, job_complete}
use starboard.Operator.Config.{Config}
use starboard.Operator.Limit.{limit_checker}
use starboard.Report.{VulnerabilityReportData, VulnerabilityReport, ttl_report_annotation}
use starboard.Vulnerability.Builder.{Plugin, PluginContext, Toolkit, ScanJobBuilder, ReportBuilder}
use starboard.Vulnerability.Store.{write}
use starboard.Vulnerability.Controller.{Controller}
use starboard.Tests.Data.{meta_of, missing, web, web_spec, valid_label, hashing}
use starboard.Tests.Server.{State, server}

abbrev pub config : Config
config = record {
  namespace = "starboard";
  target_namespaces = "prod,dev";
  exclude_namespaces = "";
  service_account = "starboard";
  scan_job_timeout = pos 300000000000;
  concurrent_scan_jobs_limit = pos 1;
  scan_job_retry_after = pos 30000000000;
  batch_delete_limit = pos 10;
  batch_delete_delay = pos 10000000000;
  vulnerability_scanner_scan_only_current_revisions = true;
  vulnerability_scanner_report_ttl = some (pos 60);
  config_audit_scanner_enabled = true;
  config_audit_scanner_built_in = false;
}

abbrev pub clean : VulnerabilityReportData
clean = record {
  update_timestamp = pos 100;
  scanner = "Trivy";
  registry = "docker.io";
  artifact = record { repository = "nginx"; digest = ""; tag = "1.16"; mime_type = "" };
  summary = record {
    critical_count = 0;
    high_count = 0;
    medium_count = 0;
    low_count = 0;
    unknown_count = 0;
    none_count = 0;
  };
  vulnerabilities = [];
}

abbrev pub registry_secret : Secret
registry_secret = record { meta = meta_of "registry" [] [] none; content = []; owner = none }

abbrev pub plugin : Plugin
plugin = record {
  get_scan_job_spec = λ context obj credentials. ok (web_spec, registry_secret ∷ []);
  parse_vulnerability_report_data = λ context image logs. ok clean;
}

abbrev pub plugin_context : PluginContext
plugin_context = record { name = "Trivy"; namespace = "starboard"; settings = [] }

abbrev pub kit : Toolkit
kit = record {
  hashing = hashing;
  valid_label = valid_label;
  as_json = λ images. ok "images";
  from_json = λ json. ok (("app", "nginx:1.16") ∷ ("log", "fluentd:1") ∷ []);
  duration_string = λ d. "1m";
  set_controller_reference = λ obj rep. ok rep;
}

abbrev pub report_of : String → VulnerabilityReport
report_of container = record {
  meta =
      meta_of container
        ((label_container_name, container) ∷ (label_resource_spec_hash, "spec-web") ∷ [])
        ((ttl_report_annotation, "1m") ∷ []) none;
  report = clean;
}

-- The controller, where the reports of every owner are these.
abbrev pub controller : List VulnerabilityReport → Controller State
controller reports = record {
  config = config;
  settings = [];
  server = server;
  limit_checker = limit_checker server config [];
  logs = λ job container s. ok "{}";
  terminated = λ job s. ok tt;
  credentials_by_workload = λ obj s. ok [];
  tolerations = ok [];
  plugin = plugin;
  plugin_context = plugin_context;
  read_writer = record {
    find_by_owner = λ owner s. ok reports;
    find_by_owner_in_hierarchy = λ owner s. ok reports;
    write = write server;
  };
  kit = kit;
}

abbrev pub idle : State
idle = record { jobs = []; reports = λ key. missing }

abbrev pub web_key : ObjectKey
web_key = record { name = "web"; namespace = "prod" }

abbrev pub web_job : ScanJob
web_job = record {
  meta =
      meta_of "scan-vulnerabilityreport-Podweb"
        ((label_resource_kind, "Pod")
          ∷ (label_resource_name, "web")
          ∷ (label_resource_namespace, "prod")
          ∷ (label_resource_spec_hash, "spec-web")
          ∷ [])
        ((annotation_container_images, "images") ∷ []) none;
  conditions = job_complete ∷ [];
  active_deadline_seconds = some (pos 300);
  template = record { meta = meta_of "" [] [] none; spec = web_spec };
}

abbrev pub busy : State
busy = record { jobs = web_job ∷ []; reports = λ key. ok (report_of key.name) }

abbrev pub web_scan : ScanJobBuilder
web_scan = record {
  plugin = plugin;
  plugin_context = plugin_context;
  timeout = config.scan_job_timeout;
  object = web;
  credentials = [];
  tolerations = [];
  annotations = [];
  pod_template_labels = [];
}

abbrev pub web_report : ReportBuilder
web_report = record {
  controller = web;
  container = "app";
  hash = "spec-web";
  report_data = clean;
  report_ttl = some (pos 60);
}
