-- ===== src/ConfigAudit/Scans.antt =====
-- ConfigAuditReportReconciler of pkg/operator/controller/configauditreport.go: audits by a plugin, which run as
-- jobs. This file has the reconciler of resources.
pub mod Scheduling
use starboard.Prelude.{
  String, ℕ, Bool, true, false, ◌&&◌, ◌||◌, List, [], ◌∷◌, Option, none, some, Map, value, ◌==◌,
  if◌then◌else◌, wrapped, concat, Result, ok, err, is_not_found, is_already_exists, wrap, is_some,
}
use starboard.Prelude
use starboard.Prelude.Action.{Action, return, fail, reading, handle, ◌>>=◌, ◌>>◌}
use starboard.Constants.{label_resource_spec_hash}
use starboard.Kube.Kind
use starboard.Kube.Kind.{is_built_in_workload, is_cluster_scoped_kind}
use starboard.Kube.Object.{
  Object, ObjectMeta, ObjectRef, ObjectKey, object_ref_from_kind_and_object_key, compute_spec_hash,
}
use starboard.Kube.Resolver.{object_from_object_ref}
use starboard.Kube.Server.{Outcome, done, ScanJob, Secret}
use starboard.Operator.Config.{
  Config, ConfigData, get_scan_job_annotations, get_scan_job_pod_template_labels,
}
use starboard.Operator.Limit.{LimitChecker}
use starboard.Vulnerability.Builder.{PluginContext}
use starboard.Vulnerability.Controller.Workload.{controlled_by_cron_job}
use starboard.ConfigAudit.{AuditServer, AuditPlugin}
use starboard.ConfigAudit.Store.{AuditReadWriter}
use starboard.ConfigAudit.Builder.{AuditKit, AuditJobBuilder, audit_job_name, build_audit_job}
use starboard.ConfigAudit.Resource.{is_current}

-- What the reconciler struct embeds. `tolerations` is GetScanJobTolerations, which decodes JSON; `logs` and
-- `terminated` are the methods of kube.LogsReader, the latter without the exit statuses, which are only logged.
pub record AuditReconciler (S : Type 0) : Type 0 where
  pub config : Config
  pub settings : ConfigData
  pub server : AuditServer S
  pub limit_checker : LimitChecker S
  pub logs : ScanJob → String → S → Result String
  pub terminated : ScanJob → S → Result (Unit {0})
  pub tolerations : Result (List String)
  pub plugin : AuditPlugin S
  pub plugin_context : PluginContext
  pub read_writer : AuditReadWriter S
  pub kit : AuditKit

-- The loop of supportsKind.
kind_in : List String → String → Bool
kind_in [] kind = false
kind_in (k ∷ ks) kind = k == kind || kind_in ks kind

-- The checks on who manages the resource: true where it is skipped.
unfoldable pub skips_scan : String → Object → Bool
skips_scan kind obj =
    if kind == Kind.pod && is_built_in_workload obj.meta.controller
    then true
    else kind == Kind.job && controlled_by_cron_job obj.meta.controller

module _ {S : Type 0} (r : AuditReconciler S) where
  unfoldable pub supports_kind : String → Bool
  unfolding kind_in
  supports_kind kind = kind_in r.plugin.supported_kinds kind

  unfoldable pub has_cluster_report : ObjectRef → String → String → S → Result Bool
  has_cluster_report owner spec_hash config_hash s =
      Prelude.◌>>=◌ (r.read_writer.find_cluster_report_by_owner owner s)
        (λ report. ok (is_current report spec_hash config_hash))

  unfoldable pub has_report : ObjectRef → String → String → S → Result Bool
  unfolding has_cluster_report
  has_report owner spec_hash config_hash s =
      if is_cluster_scoped_kind owner.kind
      then has_cluster_report owner spec_hash config_hash s
      else Prelude.◌>>=◌ (r.read_writer.find_report_by_owner owner s)
          (λ report. ok (is_current report spec_hash config_hash))

  -- The job, if it is there and scans this very object.
  unfoldable pub has_active_scan_job : Object → String → S → Result (Option ScanJob)
  has_active_scan_job obj spec_hash s =
      elim (r.server.base.get_job
        (record { name = audit_job_name r.kit obj; namespace = r.config.namespace }) s) [
          | ok job ↦ ok (
              if value label_resource_spec_hash job.meta.labels == spec_hash
              then some job
              else none)
          | err e ↦ if is_not_found e then ok none else err (wrapped "getting pod from cache" e)
        ]

  -- False where a secret is there already, which ends the whole method with success.
  create_secrets : List Secret → Action S Bool
  create_secrets [] = return true
  create_secrets (secret ∷ secrets) =
      handle (r.server.base.create_secret secret) (λ _. create_secrets secrets)
        (λ e. if is_already_exists e then return false else fail (wrapped "creating secret" e))

  own_secrets : ScanJob → List Secret → Action S (Unit {0})
  own_secrets job [] = return tt
  own_secrets job (secret ∷ secrets) =
      handle
        (reading
          (λ s. wrap "setting owner reference" (r.server.base.set_owner_reference job secret)))
        (λ owned.
          handle (r.server.base.update_secret owned) (λ _. own_secrets job secrets)
            (λ e. fail (wrapped "updating secret" e)))
        fail

  create_job : ScanJob → List Secret → Action S (Unit {0})
  unfolding own_secrets
  create_job job secrets =
      handle (r.server.base.create_job job) (λ _. own_secrets job secrets)
        (λ e. if is_already_exists e then return tt else fail (wrapped "creating job" e))

  -- The secrets first, then the job, then the secrets once more with the job as their owner.
  submit_built : ScanJob × List Secret → Action S (Unit {0})
  unfolding create_secrets create_job
  submit_built (job, secrets) = do
    go_on ← create_secrets secrets
    if go_on then create_job job secrets else return tt

  -- The chain of With methods.
  scan_job_builder : Object → List String → Map String → Map String → AuditJobBuilder S
  scan_job_builder obj tolerations annotations labels = record {
    plugin = r.plugin;
    plugin_context = r.plugin_context;
    timeout = r.config.scan_job_timeout;
    object = obj;
    tolerations = tolerations;
    annotations = annotations;
    pod_template_labels = labels;
  }

  -- From the settings of the job on.
  unfoldable pub submit_scan : Object → Action S Outcome
  unfolding submit_built scan_job_builder
  submit_scan obj = do
    tolerations ← reading (λ s. wrap "getting scan job tolerations" r.tolerations)
    annotations ←
        reading (λ s. wrap "getting scan job annotations" (get_scan_job_annotations r.settings))
    labels ←
        reading (λ s.
          wrap "getting scan job template labels" (get_scan_job_pod_template_labels r.settings))
    built ← reading (λ s.
        wrap "constructing scan job"
          (build_audit_job r.kit (scan_job_builder obj tolerations annotations labels) s))
    submit_built built
    return done

  -- From the limit check on.
  unfoldable pub schedule_scan : Object → Action S Outcome
  unfolding submit_scan
  schedule_scan obj = do
    limit ← reading r.limit_checker.check
    if limit.0
        then return (record { requeue_after = r.config.scan_job_retry_after })
        else submit_scan obj

  -- From the look for a running scan job on.
  unfoldable pub scan_unless_active : Object → String → Action S Outcome
  unfolding schedule_scan has_active_scan_job
  scan_unless_active obj spec_hash = do
    job ← reading (has_active_scan_job obj spec_hash)
    if is_some job then return done else schedule_scan obj

  -- From the look at the report on.
  unfoldable pub scan_unless_reported : ObjectRef → Object → String → String → Action S Outcome
  unfolding scan_unless_active has_report
  scan_unless_reported ref obj spec_hash config_hash = do
    current ← reading (has_report ref spec_hash config_hash)
    if current then return done else scan_unless_active obj spec_hash

  -- From the hashes on.
  unfoldable pub hash_and_scan : ObjectRef → Object → Action S Outcome
  unfolding scan_unless_reported
  hash_and_scan ref obj = do
    spec_hash ← reading (λ s. wrap "computing spec hash" (compute_spec_hash r.kit.hashing obj))
    config_hash ← reading (λ s.
        wrap "computing plugin config hash" (r.plugin.config_hash r.plugin_context obj.type_kind s))
    scan_unless_reported ref obj spec_hash config_hash

  -- From the question whether the plugin applies on.
  unfoldable pub scan_if_applicable : ObjectRef → Object → Action S Outcome
  unfolding hash_and_scan
  scan_if_applicable ref obj = do
    wanted ← reading (λ s.
        wrap "checking whether plugin is applicable"
          (r.plugin.is_applicable r.plugin_context obj s))
    if wanted
        then hash_and_scan ref obj
        else return (record { requeue_after = r.config.scan_job_retry_after })

  unfoldable pub reconcile_resource : String → ObjectKey → Action S Outcome
  unfolding skips_scan scan_if_applicable
  reconcile_resource kind key =
      let ref = object_ref_from_kind_and_object_key kind key in
      handle (reading (λ s. object_from_object_ref (r.server.base.cluster s) ref))
        (λ obj. if skips_scan kind obj then return done else scan_if_applicable ref obj)
        (λ e.
          if is_not_found e then return done else fail (wrapped "getting resource from cache" e))
