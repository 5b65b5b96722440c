-- ===== src/ConfigAudit/Builder.antt =====
-- ScanJobBuilder and ReportBuilder of pkg/configauditreport/builder.go. A builder is a record of what its
-- `With` methods set.
pub mod Selected
use starboard.Prelude.{
  String, Bool, false, List, [], ◌∷◌, ◌++◌, map, none, Map, insert, insert_all, ◌==◌, if◌then◌else◌,
  to_lower, concat, dashed, Result, ok, ◌>>=◌, wrap,
}
use starboard.Prelude.Int.{ℤ}
use starboard.Prelude.Action.{Action, reading, handle, fail}
use starboard.Constants.{
  label_resource_spec_hash, label_plugin_config_hash, label_config_audit_report_scanner,
  label_k8s_app_managed_by, app_starboard,
}
use starboard.Kube.Kind.{is_cluster_scoped_kind}
use starboard.Kube.Object.{Labels, ObjectMeta, PodSpec, Object, Hashing, compute_spec_hash}
use starboard.Kube.Reference.{object_to_object_meta}
use starboard.Kube.Reference.RoundTrip.{ref_of}
use starboard.Kube.Server.{ScanJob, Secret}
use starboard.Vulnerability.Builder.{PluginContext, get_active_deadline_seconds}
use starboard.ConfigAudit.{ConfigAuditReport, ConfigAuditReportData, AuditPlugin}
use starboard.ConfigAudit.Store.{AuditReadWriter}

-- What the builders call outside the program.
pub record AuditKit : Type 0 where
  pub hashing : Hashing
  pub valid_label : String → Bool
  pub set_controller_reference : Object → ConfigAuditReport → Result ConfigAuditReport

pub record AuditJobBuilder (S : Type 0) : Type 0 where
  pub plugin : AuditPlugin S
  pub plugin_context : PluginContext
  pub timeout : ℤ
  pub object : Object
  pub tolerations : List String
  pub annotations : Map String
  pub pod_template_labels : Labels

pub record AuditReportBuilder : Type 0 where
  pub controller : Object
  pub resource_spec_hash : String
  pub plugin_config_hash : String
  pub report_data : ConfigAuditReportData

module _ (kit : AuditKit) where
  unfoldable pub audit_job_name : Object → String
  audit_job_name obj = concat "scan-configauditreport-" (kit.hashing.hash_ref (ref_of obj))

  job_labels : {S : Type 0} → AuditJobBuilder S → String → String → Labels
  job_labels b spec_hash config_hash =
      (label_resource_spec_hash, spec_hash)
      ∷ (label_plugin_config_hash, config_hash)
      ∷ (label_config_audit_report_scanner, b.plugin_context.name)
      ∷ (label_k8s_app_managed_by, app_starboard)
      ∷ []

  encode_owner : Object → ObjectMeta → ObjectMeta
  encode_owner obj meta = object_to_object_meta kit.valid_label kit.hashing obj meta

  -- The Job literal of ScanJobBuilder.Get, with the owner encoded into the job and into its pod template.
  new_audit_job : {S : Type 0} → AuditJobBuilder S → PodSpec → String → String → ScanJob
  unfolding audit_job_name job_labels encode_owner get_active_deadline_seconds
  new_audit_job b spec spec_hash config_hash =
      let labels = job_labels b spec_hash config_hash in
      record {
        meta = encode_owner b.object (record {
          name = audit_job_name b.object;
          namespace = b.plugin_context.namespace;
          labels = labels;
          annotations = b.annotations;
          controller = none;
          deleted = false;
        });
        conditions = [];
        active_deadline_seconds = get_active_deadline_seconds b.timeout;
        template = record {
          meta = encode_owner b.object (record {
            name = "";
            namespace = "";
            labels = insert_all b.pod_template_labels (insert_all labels []);
            annotations = b.annotations;
            controller = none;
            deleted = false;
          });
          spec = record spec { tolerations = spec.tolerations ++ b.tolerations };
        };
      }

  -- The loop over the secrets.
  label_secret : Object → Labels → Secret → Secret
  unfolding encode_owner
  label_secret obj labels secret = record secret {
    meta = encode_owner obj (record secret.meta { labels = insert_all labels secret.meta.labels });
  }

  -- ScanJobBuilder.Get
  unfoldable pub build_audit_job :
      {S : Type 0} → AuditJobBuilder S → S → Result (ScanJob × List Secret)
  unfolding new_audit_job label_secret job_labels
  build_audit_job b s = do
    planned ← b.plugin.get_scan_job_spec b.plugin_context b.object s
    spec_hash ← compute_spec_hash kit.hashing b.object
    config_hash ← b.plugin.config_hash b.plugin_context b.object.type_kind s
    ok (
      new_audit_job b planned.0 spec_hash config_hash,
      map (label_secret b.object (job_labels b spec_hash config_hash)) planned.1,
    )

  -- reportName: the readable name, or a hashed one where that is no valid label value.
  unfoldable pub audit_report_name : Object → String
  audit_report_name controller =
      let kind = to_lower controller.type_kind in
      let name = dashed kind controller.meta.name in
      if kit.valid_label name
      then name
      else dashed kind (kit.hashing.hash_name controller.meta.name)

  insert_unless_blank : String → String → Labels → Labels
  insert_unless_blank key x labels = if x == "" then labels else insert key x labels

  hash_labels : AuditReportBuilder → Labels
  unfolding insert_unless_blank
  hash_labels b =
      insert_unless_blank label_plugin_config_hash b.plugin_config_hash
        (insert_unless_blank label_resource_spec_hash b.resource_spec_hash [])

  -- What GetReport and GetClusterReport share: the report in a namespace, under its controller.
  report_in : String → AuditReportBuilder → Result ConfigAuditReport
  unfolding audit_report_name hash_labels encode_owner
  report_in namespace b = wrap "setting controller reference" (
      kit.set_controller_reference b.controller (record {
        meta = encode_owner b.controller (record {
          name = audit_report_name b.controller;
          namespace = namespace;
          labels = hash_labels b;
          annotations = [];
          controller = none;
          deleted = false;
        });
        report = b.report_data;
      }))

  unfoldable pub get_cluster_report : AuditReportBuilder → Result ConfigAuditReport
  unfolding report_in
  get_cluster_report b = report_in "" b

  unfoldable pub get_report : AuditReportBuilder → Result ConfigAuditReport
  unfolding report_in
  get_report b = report_in b.controller.meta.namespace b

  module _ {S : Type 0} (writer : AuditReadWriter S) where
    -- ReportBuilder.Write
    unfoldable pub write_audit : AuditReportBuilder → Action S (Unit {0})
    unfolding get_cluster_report get_report
    write_audit b =
        if is_cluster_scoped_kind b.controller.type_kind
        then handle (reading (λ s. get_cluster_report b)) writer.write_cluster_report fail
        else handle (reading (λ s. get_report b)) writer.write_report fail
