-- ===== src/ConfigAudit/Command.antt =====
-- Scanner.Scan of pkg/configauditreport/scanner.go, the audit of the command line: it prepares the report of the
-- owner of an object, and leaves its write to the caller.
pub mod Agreement
use starboard.Prelude.{String, Map, if◌then◌else◌, Result, ok, err, message, wrap, ◌>>=◌, some}
use starboard.Constants.{namespace_name, policies_config_map_name}
use starboard.Kube.Object.{Object, ObjectRef, compute_spec_hash}
use starboard.Kube.Resolver.{object_from_object_ref, report_owner}
use starboard.Policy.{Policies, applicable, hash}
use starboard.Policy.Eval.{Engine, eval}
use starboard.ConfigAudit.{AuditServer}
use starboard.ConfigAudit.Builder.{AuditKit, AuditReportBuilder}
use starboard.ConfigAudit.Resource.{data_of}

pub record AuditScanner (S Module Compiler : Type 0) : Type 0 where
  pub server : AuditServer S
  pub kit : AuditKit
  pub compute_hash : Map String → String
  pub rego : Engine Module Compiler Object
  pub version : String

module _ {S Module Compiler : Type 0} (c : AuditScanner S Module Compiler) where
  -- Scanner.policies, from the namespace of the command line's settings.
  scanner_policies : S → Result Policies
  scanner_policies s = wrap "failed getting policies from configmap" (
      c.server.get_config_map
        (record { name = policies_config_map_name; namespace = namespace_name }) s)

  -- From the owner on.
  scan_owner : Object → S → Result AuditReportBuilder
  unfolding scanner_policies
  scan_owner resource s = do
    source ← wrap "failed getting policies" (scanner_policies s)
    wanted ← applicable source resource.type_kind
    if wanted
        then (do
          results ←
              wrap "failed evaluating policies"
                (eval c.rego source (λ obj. obj.type_kind) (some resource))
          spec_hash ← wrap "failed computing spec hash" (compute_spec_hash c.kit.hashing resource)
          config_hash ←
              wrap "failed computing scanner config hash"
                (hash c.compute_hash source resource.type_kind)
          ok (record {
            controller = resource;
            resource_spec_hash = spec_hash;
            plugin_config_hash = config_hash;
            report_data = data_of c.version results;
          }))
        else err (message "not applicable")

  unfoldable pub scan : ObjectRef → S → Result AuditReportBuilder
  unfolding scan_owner
  scan ref s = do
    resource ←
        wrap "failed resolving resource from ref"
          (object_from_object_ref (c.server.base.cluster s) ref)
    owner ← wrap "failed resolving report owner" (report_owner (c.server.base.cluster s) resource)
    scan_owner owner s
