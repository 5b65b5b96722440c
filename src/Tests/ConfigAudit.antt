-- ===== src/Tests/ConfigAudit.antt =====
-- Audits of the Pod on the small server.
use starboard.ConfigAudit.Builder.{AuditReportBuilder}
use starboard.ConfigAudit.Resource.{ResourceController, data_of}
use starboard.Tests.Data.{web}
use starboard.Tests.Policy.{verdict}
use starboard.Tests.Scans.{config}
use starboard.Report.{string_to_severity}
use starboard.ConfigAudit.Store.{write_report, find_report_by_owner, audit_read_writer}
use starboard.Vulnerability.Controller.Workload.{controlled_by_cron_job}
use starboard.Policy.Eval.{eval}
use starboard.Kube.Reference.{object_to_object_meta}
use starboard.ConfigAudit.Builder.{write_audit, get_report, get_cluster_report, audit_report_name}
use starboard.Policy.{modules_by_kind, libraries, hash, applies, policies_by_kind, applicable}
use starboard.Prelude.Action.{return, reading, fail, ◌>>=◌, handle}
use Kind.{is_cluster_scoped_kind}
use starboard.Prelude.{
  to_upper, to_lower, prepend, dashed, cut_suffix, insert_all, is_not_found, insert, trim_suffix,
  concat, lookup, split, has_prefix, has_suffix, String, false, ◌≡◌, ◌⊎◌, refl, sym, ap, List, [],
  ◌∷◌, ok, ok_injective, none, some,
}
use starboard.Kube.Kind
use starboard.Kube.Object.{compute_spec_hash, Object, object_ref_from_kind_and_object_key}
use starboard.Kube.Reference.RoundTrip.{ref_of}
use starboard.Kube.Resolver.{ensure_gvk, object_from_object_ref}
use starboard.Kube.Server.{done}
use starboard.ConfigAudit.{config_audit_summary_from_checks, ConfigAuditReport}
use starboard.ConfigAudit.Builder.Selected.{AllReportsOf, NoCollision}
use starboard.ConfigAudit.Resource.{
  skips_managed, policies, hash_and_audit, has_report, has_cluster_report, evaluate, data_of,
  audit_unless_current, audit_if_applicable, audit, reconcile_resource,
}
use starboard.ConfigAudit.Resource.Cases.{reconcile_resource_cases, Unchanged, Audits}
use starboard.ConfigAudit.Resource.Settled.{reconcile_resource-settles}
use starboard.ConfigAudit.Store.{write_report}
use starboard.ConfigAudit.Store.Writes.{put, write_report-put}
use starboard.Tests.Scans.{web_key}
use starboard.Tests.Audit.{auditor, audit_kit, sample}
use starboard.Tests.Slot.{Slot, held, slot_server, slot_auditor, slot_wired, slot_api-Stores}
use starboard.Kube.Server.{key_of}

audits_example :
    Unchanged auditor [] (reconcile_resource auditor Kind.pod web_key [])
    ⊎ Audits auditor [] Kind.pod web_key (reconcile_resource auditor Kind.pod web_key [])
audits_example = reconcile_resource_cases auditor [] Kind.pod web_key

abbrev audited : Slot
audited = (reconcile_resource slot_auditor Kind.pod web_key none).1

found_web :
    (obj : Object)
    → object_from_object_ref
        (slot_auditor.server.base.cluster none)
        (object_ref_from_kind_and_object_key Kind.pod web_key)
      ≡ ok obj
    → ref_of obj ≡ object_ref_from_kind_and_object_key Kind.pod web_key
unfolding object_from_object_ref object_ref_from_kind_and_object_key ensure_gvk
found_web obj h = sym (ap ref_of (ok_injective h))

audit_runs : reconcile_resource slot_auditor Kind.pod web_key none ≡ (ok done, audited)
unfolding reconcile_resource handle object_from_object_ref object_ref_from_kind_and_object_key
    ensure_gvk Kind.is_built_in_workload ◌>>=◌ applicable policies_by_kind has_suffix has_prefix
    split Kind.is_workload lookup concat trim_suffix insert audit_report_name get_cluster_report
    get_report write_audit audit audit_if_applicable audit_unless_current data_of evaluate
    has_cluster_report has_report hash_and_audit policies skips_managed
    config_audit_summary_from_checks is_cluster_scoped_kind compute_spec_hash object_to_object_meta
    eval applies hash libraries modules_by_kind fail reading return is_not_found insert_all
    cut_suffix dashed prepend to_lower controlled_by_cron_job audit_read_writer find_report_by_owner
    string_to_severity to_upper write_report
audit_runs = refl

nothing_stored : AllReportsOf audit_kit (held none)
nothing_stored key r there = absurd (cc there)

no_collision : NoCollision audit_kit (held none) nothing_stored "web"
no_collision key r there same = absurd (cc there)

settles_example :
    AllReportsOf audit_kit (held audited)
    × (reconcile_resource slot_auditor Kind.pod web_key audited ≡ (ok done, audited))
unfolding is_cluster_scoped_kind reconcile_resource
settles_example =
    reconcile_resource-settles slot_auditor held slot_wired Kind.pod web_key none audited done refl
      found_web nothing_stored no_collision _ refl audit_runs refl refl

-- A report that another write left under the name.
abbrev before : Slot
before = some (sample "Job")

wrote : write_report slot_server (sample "Pod") before ≡ (ok tt, some (sample "Pod"))
unfolding write_report handle
wrote = refl

put_example :
    held (some (sample "Pod")) (key_of (sample "Pod").meta)
    ≡ put (sample "Pod") (held before) (key_of (sample "Pod").meta)
put_example =
    write_report-put slot_server held slot_api-Stores (sample "Pod") before (some (sample "Pod"))
      wrote (key_of (sample "Pod").meta)

-- The operator in the namespace of the command line.
abbrev local : ResourceController (List ConfigAuditReport) String String
local = record auditor { config = record config { namespace = "starboard" } }

abbrev found_by_scan : AuditReportBuilder
found_by_scan = record {
  controller = web;
  resource_spec_hash = "spec-web";
  plugin_config_hash = "policies-1";
  report_data = data_of "0.15.0" (verdict false ("denied" ∷ []) ∷ []);
}
