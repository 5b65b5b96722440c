-- ===== src/Vulnerability/Builder.antt =====
-- ScanJobBuilder and ReportBuilder of pkg/vulnerabilityreport/builder.go. A builder is a record of what its
-- `With` methods set.
pub mod Reports
pub mod Jobs
use starboard.Prelude.{
  String, Bool, false, List, [], ◌∷◌, ◌++◌, map, Option, none, some, Map, insert, insert_all, ◌==◌,
  if◌then◌else◌, to_lower, concat, dashed, Result, ok, ◌>>=◌, wrap, ◌/◌, ◌^◌,
}
use starboard.Prelude.Int.{ℤ, pos, negsuc, ltb_ℤ}
use starboard.Constants.{
  label_resource_spec_hash, label_k8s_app_managed_by, app_starboard, label_container_name,
  label_vulnerability_report_scanner, annotation_container_images,
}
use starboard.Kube.Object.{
  Labels, ObjectMeta, PodSpec, Object, Hashing, get_pod_spec, get_container_images_from_pod_spec,
}
use starboard.Kube.Reference.{object_to_object_meta}
use starboard.Kube.Reference.RoundTrip.{ref_of}
use starboard.Kube.Server.{ScanJob, Secret}
use starboard.Operator.Config.{ConfigData, vulnerability_scan_jobs_in_same_namespace}
use starboard.Report.{VulnerabilityReport, VulnerabilityReportData, ttl_report_annotation}

-- docker.Auth
pub record Auth : Type 0 where
  pub auth : String
  pub username : String
  pub password : String

-- starboard.PluginContext
pub record PluginContext : Type 0 where
  pub name : String
  pub namespace : String
  pub settings : ConfigData

-- The interface Plugin, which the scanners implement.
pub record Plugin : Type 0 where
  pub get_scan_job_spec : PluginContext → Object → Map Auth → Result (PodSpec × List Secret)
  pub parse_vulnerability_report_data :
      PluginContext → String → String → Result VulnerabilityReportData

-- What the builders call outside the program: hashes, encoding/json for maps of texts, the validation of
-- label values, Duration.String, and SetControllerReference with the changed owner reference.
pub record Toolkit : Type 0 where
  pub hashing : Hashing
  pub valid_label : String → Bool
  pub as_json : Map String → Result String
  pub from_json : String → Result (Map String)
  pub duration_string : ℤ → String
  pub set_controller_reference : Object → VulnerabilityReport → Result VulnerabilityReport

-- kube.GetActiveDeadlineSeconds: whole seconds of a positive timeout.
unfoldable pub get_active_deadline_seconds : ℤ → Option ℤ
get_active_deadline_seconds (pos ns) =
    if ltb_ℤ (pos 0) (pos ns) then some (pos (ns / 10 ^ 9)) else none
get_active_deadline_seconds (negsuc ns) = none

pub record ScanJobBuilder : Type 0 where
  pub plugin : Plugin
  pub plugin_context : PluginContext
  pub timeout : ℤ
  pub object : Object
  pub credentials : Map Auth
  pub tolerations : List String
  pub annotations : Map String
  pub pod_template_labels : Labels

pub record ReportBuilder : Type 0 where
  pub controller : Object
  pub container : String
  pub hash : String
  pub report_data : VulnerabilityReportData
  pub report_ttl : Option ℤ

in_namespace : String → Secret → Secret
in_namespace namespace secret = record secret {
  meta = record secret.meta { namespace = namespace };
}

-- updateScanJobForWorkloadNamespace
update_scan_job_for_workload_namespace :
    ScanJobBuilder → PodSpec → ScanJob × List Secret → ScanJob × List Secret
unfolding in_namespace
update_scan_job_for_workload_namespace b spec (job, secrets) =
    if vulnerability_scan_jobs_in_same_namespace b.plugin_context.settings
    then (
      record job {
        meta = record job.meta { namespace = b.object.meta.namespace };
        template = record job.template {
          spec = record job.template.spec {
            service_account_name = spec.service_account_name;
            image_pull_secrets = spec.image_pull_secrets;
          };
        };
      },
      map (in_namespace b.object.meta.namespace) secrets,
    )
    else (job, secrets)

module _ (kit : Toolkit) where
  unfoldable pub get_scan_job_name : Object → String
  get_scan_job_name obj = concat "scan-vulnerabilityreport-" (kit.hashing.hash_ref (ref_of obj))

  scan_job_labels : ScanJobBuilder → PodSpec → Labels
  scan_job_labels b spec =
      (label_resource_spec_hash, kit.hashing.hash_pod_spec spec)
      ∷ (label_k8s_app_managed_by, app_starboard)
      ∷ (label_vulnerability_report_scanner, b.plugin_context.name)
      ∷ []

  -- The Job literal of ScanJobBuilder.Get.
  new_scan_job : ScanJobBuilder → PodSpec → PodSpec → String → ScanJob
  unfolding scan_job_labels get_scan_job_name get_active_deadline_seconds
  new_scan_job b spec template_spec images_json =
      let labels = scan_job_labels b spec in
      record {
        meta = record {
          name = get_scan_job_name b.object;
          namespace = b.plugin_context.namespace;
          labels = labels;
          annotations = (annotation_container_images, images_json) ∷ [];
          controller = none;
          deleted = false;
        };
        conditions = [];
        active_deadline_seconds = get_active_deadline_seconds b.timeout;
        template = record {
          meta = record {
            name = "";
            namespace = "";
            labels = insert_all b.pod_template_labels (insert_all labels []);
            annotations = b.annotations;
            controller = none;
            deleted = false;
          };
          spec = record template_spec { tolerations = template_spec.tolerations ++ b.tolerations };
        };
      }

  -- ObjectToObjectMeta of the job and of its pod template.
  label_scan_job : Object → ScanJob → ScanJob
  label_scan_job obj job = record job {
    meta = object_to_object_meta kit.valid_label kit.hashing obj job.meta;
    template = record job.template {
      meta = object_to_object_meta kit.valid_label kit.hashing obj job.template.meta;
    };
  }

  -- ScanJobBuilder.Get
  unfoldable pub build_scan_job : ScanJobBuilder → Result (ScanJob × List Secret)
  unfolding new_scan_job label_scan_job update_scan_job_for_workload_namespace in_namespace
  build_scan_job b = do
    spec ← get_pod_spec b.object
    planned ← b.plugin.get_scan_job_spec b.plugin_context b.object b.credentials
    images_json ← kit.as_json (get_container_images_from_pod_spec spec)
    let secrets = map (in_namespace b.plugin_context.namespace) planned.1
    let built =
        update_scan_job_for_workload_namespace b spec
          (new_scan_job b spec planned.0 images_json, secrets)
    ok (label_scan_job b.object built.0, built.1)

  -- reportName: the readable name, or a hashed one where that is no valid label value.
  unfoldable pub report_name : Object → String → String
  report_name controller container =
      let kind = to_lower controller.type_kind in
      let name = dashed kind (dashed controller.meta.name container) in
      if kit.valid_label name
      then name
      else dashed kind (kit.hashing.hash_name (dashed controller.meta.name container))

  report_labels : ReportBuilder → Labels
  report_labels b =
      let labels = (label_container_name, b.container) ∷ [] in
      if b.hash == "" then labels else insert label_resource_spec_hash b.hash labels

  report_annotations : Option ℤ → Map String
  report_annotations none = []
  report_annotations (some ttl) = (ttl_report_annotation, kit.duration_string ttl) ∷ []

  -- ReportBuilder.Get
  unfoldable pub build_report : ReportBuilder → Result VulnerabilityReport
  unfolding report_labels report_annotations report_name
  build_report b =
      let meta : ObjectMeta = record {
        name = report_name b.controller b.container;
        namespace = b.controller.meta.namespace;
        labels = report_labels b;
        annotations = report_annotations b.report_ttl;
        controller = none;
        deleted = false;
      } in
      wrap "setting controller reference" (
        kit.set_controller_reference b.controller (record {
          meta = object_to_object_meta kit.valid_label kit.hashing b.controller meta;
          report = b.report_data;
        }))
