-- ===== src/ConfigAudit/Command/Agreement.antt =====
-- The report that the command line prepares, against the run of the operator on the same object.
use starboard.Prelude.{true, ◌≡◌, ok}
use starboard.Kube.Object.{Object, compute_spec_hash}
use starboard.Policy.{Policies, applicable, hash}
use starboard.ConfigAudit.Builder.{AuditReportBuilder}
use starboard.ConfigAudit.Resource.{ResourceController, policies, evaluate}
use starboard.ConfigAudit.Command.{AuditScanner}

module _ {S Module Compiler : Type 0} (r : ResourceController S Module Compiler) (s : S) where
  -- The scanner of the command line with what the operator has.
  abbrev pub scanner_of : AuditScanner S Module Compiler
  scanner_of = record {
    server = r.server;
    kit = r.kit;
    compute_hash = r.compute_hash;
    rego = r.rego;
    version = r.version;
  }

  -- What the operator finds out of the object before it writes a report.
  pub record Agrees (b : AuditReportBuilder) (resource : Object) : Type 0 where
    pub source : Policies
    pub same_object : b.controller ≡ resource
    pub same_policies : policies r s ≡ ok source
    pub wanted : applicable source resource.type_kind ≡ ok true
    pub same_spec_hash : compute_spec_hash r.kit.hashing resource ≡ ok b.resource_spec_hash
    pub same_config_hash : hash r.compute_hash source resource.type_kind ≡ ok b.plugin_config_hash
    pub same_data : evaluate r source resource ≡ ok b.report_data
