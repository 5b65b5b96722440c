-- ===== src/ConfigAudit/Resource.antt =====
-- ResourceController of pkg/configauditreport/controller.go: an audit by the policies, without a job. The
-- proofs stand in the modules below.
pub mod Cases
pub mod Settled
use starboard.Prelude.{
  String, Bool, true, false, ◌&&◌, List, [], ◌∷◌, map, Option, none, some, Map, value, ◌==◌,
  if◌then◌else◌, wrapped, Result, ok, err, is_not_found, wrap,
}
use starboard.Prelude
use starboard.Prelude.Action.{Action, return, fail, reading, handle, ◌>>=◌, ◌>>◌}
use starboard.Constants.{
  label_resource_spec_hash, label_plugin_config_hash, policies_config_map_name,
}
use starboard.Kube.Kind
use starboard.Kube.Kind.{is_built_in_workload, is_cluster_scoped_kind}
use starboard.Kube.Object.{
  Object, ObjectRef, ObjectKey, object_ref_from_kind_and_object_key, compute_spec_hash,
}
use starboard.Kube.Resolver.{object_from_object_ref}
use starboard.Kube.Server.{Outcome, done}
use starboard.Operator.Config.{Config}
use starboard.Vulnerability.Controller.Workload.{controlled_by_cron_job}
use starboard.Policy.{Policies, applicable, hash}
use starboard.Policy.Eval.{Engine, Verdict, eval}
use starboard.ConfigAudit.{
  Check, ConfigAuditReport, ConfigAuditReportData, AuditServer, config_audit_summary_from_checks,
}
use starboard.ConfigAudit.Store.{AuditReadWriter}
use starboard.ConfigAudit.Builder.{AuditKit, AuditReportBuilder, write_audit}

-- What the controller struct embeds. `compute_hash` is kube.ComputeHash of a map of texts.
pub record ResourceController (S Module Compiler : Type 0) : Type 0 where
  pub config : Config
  pub server : AuditServer S
  pub read_writer : AuditReadWriter S
  pub kit : AuditKit
  pub compute_hash : Map String → String
  pub rego : Engine Module Compiler Object
  pub version : String

-- Is there a report, and is it of this very object and of these settings?
abbrev pub is_current : Option ConfigAuditReport → String → String → Bool
is_current none spec_hash config_hash = false
is_current (some report) spec_hash config_hash =
    value label_resource_spec_hash report.meta.labels == spec_hash
    && value label_plugin_config_hash report.meta.labels == config_hash

-- The loop of evaluate.
check_of : Verdict → Check
check_of result = record {
  id = result.metadata.id;
  title = result.metadata.title;
  description = result.metadata.description;
  severity = result.metadata.severity;
  category = result.metadata.type;
  success = result.success;
  messages = result.messages;
}

-- The report data of evaluate, from the results of the policies.
unfoldable pub data_of : String → List Verdict → ConfigAuditReportData
unfolding check_of
data_of version results =
    let checks = map check_of results in
    record {
      scanner = record { name = "Starboard"; vendor = "Aqua Security"; version = version };
      summary = config_audit_summary_from_checks checks;
      checks = checks;
      pod_checks = checks;
      container_checks = [];
    }

-- The checks on who manages the resource: true where it is skipped.
unfoldable pub skips_managed : String → Object → Bool
skips_managed kind obj =
    if kind == Kind.pod && is_built_in_workload obj.meta.controller
    then true
    else kind == Kind.job && controlled_by_cron_job obj.meta.controller

module _ {S Module Compiler : Type 0} (r : ResourceController S Module Compiler) where
  unfoldable pub has_cluster_report : ObjectRef → String → String → S → Result Bool
  has_cluster_report owner spec_hash config_hash s =
      Prelude.◌>>=◌ (r.read_writer.find_cluster_report_by_owner owner s)
        (λ report. ok (is_current report spec_hash config_hash))

  unfoldable pub has_report : ObjectRef → String → String → S → Result Bool
  unfolding has_cluster_report
  has_report owner spec_hash config_hash s =
      if is_cluster_scoped_kind owner.kind
      then has_cluster_report owner spec_hash config_hash s
      else Prelude.◌>>=◌ (r.read_writer.find_report_by_owner owner s)
          (λ report. ok (is_current report spec_hash config_hash))

  unfoldable pub policies : S → Result Policies
  policies s = wrap "failed getting policies from configmap" (
      r.server.get_config_map
        (record { name = policies_config_map_name; namespace = r.config.namespace }) s)

  unfoldable pub evaluate : Policies → Object → Result ConfigAuditReportData
  evaluate source resource =
      Prelude.◌>>=◌ (eval r.rego source (λ obj. obj.type_kind) (some resource))
        (λ results. ok (data_of r.version results))

  report_builder : Object → String → String → ConfigAuditReportData → AuditReportBuilder
  report_builder resource spec_hash config_hash evaluated = record {
    controller = resource;
    resource_spec_hash = spec_hash;
    plugin_config_hash = config_hash;
    report_data = evaluated;
  }

  -- From the evaluation on.
  unfoldable pub audit : Policies → Object → String → String → Action S Outcome
  unfolding report_builder evaluate
  audit source resource spec_hash config_hash = do
    evaluated ← reading (λ s. wrap "evaluating resource" (evaluate source resource))
    write_audit r.kit r.read_writer (report_builder resource spec_hash config_hash evaluated)
    return done

  -- From the look at the report on.
  unfoldable pub audit_unless_current :
      ObjectRef → Policies → Object → String → String → Action S Outcome
  unfolding audit has_report
  audit_unless_current ref source resource spec_hash config_hash = do
    current ← reading (λ s.
        wrap "checking whether configuration audit report exists"
          (has_report ref spec_hash config_hash s))
    if current then return done else audit source resource spec_hash config_hash

  -- From the hashes on.
  unfoldable pub hash_and_audit : String → ObjectRef → Policies → Object → Action S Outcome
  unfolding audit_unless_current
  hash_and_audit kind ref source resource = do
    spec_hash ← reading (λ s. wrap "computing spec hash" (compute_spec_hash r.kit.hashing resource))
    config_hash ← reading (λ s. wrap "computing policies hash" (hash r.compute_hash source kind))
    audit_unless_current ref source resource spec_hash config_hash

  -- From the policies on.
  unfoldable pub audit_if_applicable : String → ObjectRef → Object → Action S Outcome
  unfolding hash_and_audit policies
  audit_if_applicable kind ref resource = do
    source ← reading (λ s. wrap "getting policies" (policies s))
    wanted ←
        reading
          (λ s. wrap "checking whether plugin is applicable" (applicable source resource.type_kind))
    if wanted
        then hash_and_audit kind ref source resource
        else return (record { requeue_after = r.config.scan_job_retry_after })

  unfoldable pub reconcile_resource : String → ObjectKey → Action S Outcome
  unfolding skips_managed audit_if_applicable
  reconcile_resource kind key =
      let ref = object_ref_from_kind_and_object_key kind key in
      handle (reading (λ s. object_from_object_ref (r.server.base.cluster s) ref))
        (λ obj. if skips_managed kind obj then return done else audit_if_applicable kind ref obj)
        (λ e.
          if is_not_found e then return done else fail (wrapped "getting resource from cache" e))
