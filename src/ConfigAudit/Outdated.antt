-- ===== src/ConfigAudit/Outdated.antt =====
-- What both reconcilers of resources find when an object is not skipped and its report is not current.
use starboard.Prelude.{
  String, Bool, true, false, ◌&&◌, ◌≡◌, Option, none, some, value, ◌==◌, eq_iff, if◌then◌else◌,
  Result, ok, ok_injective, bind_ok, Bool-cases, refl, ◌∙◌, inl, inr, arith,
}
use starboard.Prelude
use starboard.Constants.{label_resource_spec_hash, label_plugin_config_hash}
use starboard.Kube.Kind
use starboard.Kube.Kind.{is_built_in_workload, is_cluster_scoped_kind}
use starboard.Kube.Object.{Object, ObjectRef}
use starboard.Vulnerability.Controller.Workload.{controlled_by_cron_job}
use starboard.ConfigAudit.{ConfigAuditReport}
use starboard.ConfigAudit.Store.{AuditReadWriter}
use starboard.ConfigAudit.Resource.{ResourceController, is_current, skips_managed}
use starboard.ConfigAudit.Resource
use starboard.ConfigAudit.Scans.{AuditReconciler, skips_scan}
use starboard.ConfigAudit.Scans

-- The object is no pod of a built-in workload and no job of a cron job.
pub record StandsAlone (kind : String) (obj : Object) : Type 0 where
  pub no_pod : (kind == Kind.pod && is_built_in_workload obj.meta.controller) ≡ false
  pub no_job : (kind == Kind.job && controlled_by_cron_job obj.meta.controller) ≡ false

pub skips_managed-StandsAlone :
    (kind : String) (obj : Object) → skips_managed kind obj ≡ false → StandsAlone kind obj
unfolding skips_managed
skips_managed-StandsAlone kind obj h = record {
  no_pod = ground (arith, h);
  no_job = ground (arith, h);
}

pub skips_scan-StandsAlone :
    (kind : String) (obj : Object) → skips_scan kind obj ≡ false → StandsAlone kind obj
unfolding skips_scan
skips_scan-StandsAlone kind obj h = record {
  no_pod = ground (arith, h);
  no_job = ground (arith, h);
}

-- There is no report, or it tells another hash of the object or of the settings.
pub data Stale (spec_hash config_hash : String) (found : Option ConfigAuditReport) : Type 0 where
  absent : found ≡ none → Stale spec_hash config_hash found
  other_spec :
      (report : ConfigAuditReport)
      → found ≡ some report
      → (value label_resource_spec_hash report.meta.labels == spec_hash) ≡ false
      → Stale spec_hash config_hash found
  other_config :
      (report : ConfigAuditReport)
      → found ≡ some report
      → (value label_plugin_config_hash report.meta.labels == config_hash) ≡ false
      → Stale spec_hash config_hash found

is_current-Stale :
    (spec_hash config_hash : String) (found : Option ConfigAuditReport)
    → is_current found spec_hash config_hash ≡ false
    → Stale spec_hash config_hash found
is_current-Stale spec_hash config_hash none h = absent refl
is_current-Stale spec_hash config_hash (some report) h =
    elim (Bool-cases (value label_resource_spec_hash report.meta.labels == spec_hash)) [
      | inl same ↦ other_config report refl (rw same at h)
      | inr other ↦ other_spec report refl other
    ]

-- The report of the owner, or the cluster report for a kind without namespaces, can be read and is stale.
pub record Outdated {S : Type 0} (read_writer : AuditReadWriter S) (s : S) (owner : ObjectRef)
    (spec_hash config_hash : String) : Type 0 where
  pub found : Option ConfigAuditReport
  pub read :
      (if is_cluster_scoped_kind owner.kind
        then read_writer.find_cluster_report_by_owner owner s
        else read_writer.find_report_by_owner owner s)
      ≡ ok found
  pub stale : Stale spec_hash config_hash found

module _ {S : Type 0} (read_writer : AuditReadWriter S) (s : S) (owner : ObjectRef)
    (spec_hash config_hash : String) where
  read-Outdated :
      (cluster : Bool) (answer : Result (Option ConfigAuditReport))
      → is_cluster_scoped_kind owner.kind ≡ cluster
      → (if cluster
          then read_writer.find_cluster_report_by_owner owner s
          else read_writer.find_report_by_owner owner s)
        ≡ answer
      → Prelude.◌>>=◌ answer (λ report. ok (is_current report spec_hash config_hash)) ≡ ok false
      → Outdated read_writer s owner spec_hash config_hash
  read-Outdated cluster answer scope asked h =
      let (found, read, same) =
        bind_ok answer (λ report. ok (is_current report spec_hash config_hash)) false h in
      record {
        found = found;
        read = rw scope (asked ∙ read);
        stale = is_current-Stale spec_hash config_hash found (ok_injective same);
      }

pub resource-Outdated :
    {S Module Compiler : Type 0} (r : ResourceController S Module Compiler) (s : S)
    (owner : ObjectRef) (spec_hash config_hash : String)
    → Resource.has_report r owner spec_hash config_hash s ≡ ok false
    → Outdated r.read_writer s owner spec_hash config_hash
unfolding Resource.has_report Resource.has_cluster_report
resource-Outdated r s owner spec_hash config_hash h =
    elim (Bool-cases (is_cluster_scoped_kind owner.kind)) [
      | inl p ↦ read-Outdated r.read_writer s owner spec_hash config_hash true _ p refl (rw p at h)
      | inr p ↦ read-Outdated r.read_writer s owner spec_hash config_hash false _ p refl (rw p at h)
    ]

pub scans-Outdated :
    {S : Type 0} (r : AuditReconciler S) (s : S) (owner : ObjectRef)
    (spec_hash config_hash : String)
    → Scans.has_report r owner spec_hash config_hash s ≡ ok false
    → Outdated r.read_writer s owner spec_hash config_hash
unfolding Scans.has_report Scans.has_cluster_report
scans-Outdated r s owner spec_hash config_hash h =
    elim (Bool-cases (is_cluster_scoped_kind owner.kind)) [
      | inl p ↦ read-Outdated r.read_writer s owner spec_hash config_hash true _ p refl (rw p at h)
      | inr p ↦ read-Outdated r.read_writer s owner spec_hash config_hash false _ p refl (rw p at h)
    ]
