-- ===== src/ConfigAudit/Store.antt =====
-- The reader and writer of configuration audits: pkg/configauditreport/io.go.
pub mod Writes
use starboard.Prelude.{
  String, Bool, true, false, ◌&&◌, ◌||◌, List, [], ◌∷◌, Option, some, none, if◌then◌else◌, ◌==◌,
  Result, ok, err, is_not_found, is_some, not, wrap, ◌>>=◌,
}
use starboard.Prelude.Action.{Action, return, fail, reading, handle}
use starboard.Kube.Kind
use starboard.Kube.Object.{ObjectRef, Hashing}
use starboard.Kube.Reference.{object_ref_to_labels}
use starboard.Kube.Resolver.{related_replica_set_name}
use starboard.Kube.Server.{key_of}
use starboard.ConfigAudit.{ConfigAuditReport, ReportApi, AuditServer}

-- The interface ReadWriter.
pub record AuditReadWriter (S : Type 0) : Type 0 where
  pub write_report : ConfigAuditReport → Action S (Unit {0})
  pub write_cluster_report : ConfigAuditReport → Action S (Unit {0})
  pub find_report_by_owner : ObjectRef → S → Result (Option ConfigAuditReport)
  pub find_report_by_owner_in_hierarchy : ObjectRef → S → Result (Option ConfigAuditReport)
  pub find_cluster_report_by_owner : ObjectRef → S → Result (Option ConfigAuditReport)

first : List ConfigAuditReport → Option ConfigAuditReport
first [] = none
first (r ∷ rs) = some r

module _ {S : Type 0} (server : AuditServer S) where
  unfoldable pub write_report : ConfigAuditReport → Action S (Unit {0})
  write_report report =
      handle (reading (server.reports.get (key_of report.meta)))
        (λ existing. server.reports.update (record {
          meta = record existing.meta { labels = report.meta.labels };
          report = report.report;
        }))
        (λ e. if is_not_found e then server.reports.create report else fail e)

  -- The report is asked for by its name alone.
  unfoldable pub write_cluster_report : ConfigAuditReport → Action S (Unit {0})
  write_cluster_report report =
      handle
        (reading (server.cluster_reports.get (record { name = report.meta.name; namespace = "" })))
        (λ existing. server.cluster_reports.update (record {
          meta = record existing.meta { labels = report.meta.labels };
          report = report.report;
        }))
        (λ e. if is_not_found e then server.cluster_reports.create report else fail e)

module _ {S : Type 0} (server : AuditServer S) (valid_label : String → Bool) (h : Hashing) where
  -- The first of the reports that the labels of the owner select.
  unfoldable pub find_report_by_owner : ObjectRef → S → Result (Option ConfigAuditReport)
  unfolding first
  find_report_by_owner owner s = do
    list ← server.reports.list (object_ref_to_labels valid_label h owner) (some owner.namespace) s
    ok (first list)

  unfoldable pub find_cluster_report_by_owner : ObjectRef → S → Result (Option ConfigAuditReport)
  unfolding first
  find_cluster_report_by_owner owner s = do
    list ← server.cluster_reports.list (object_ref_to_labels valid_label h owner) none s
    ok (first list)

  -- An error of this second search is lost: the code assigns it to a variable that nothing reads.
  or_none : Result (Option ConfigAuditReport) → Result (Option ConfigAuditReport)
  or_none (ok found) = ok found
  or_none (err e) = ok none

  find_by_related_replica_set : ObjectRef → S → Result (Option ConfigAuditReport)
  unfolding or_none
  find_by_related_replica_set owner s = do
    name ←
        wrap "getting replicaset related to"
          (related_replica_set_name (server.base.cluster s) owner)
    or_none (
        find_report_by_owner
          (record { kind = Kind.replica_set; name = name; namespace = owner.namespace }) s)

  unfoldable pub find_report_by_owner_in_hierarchy :
      ObjectRef → S → Result (Option ConfigAuditReport)
  unfolding find_by_related_replica_set
  find_report_by_owner_in_hierarchy owner s = do
    report ← find_report_by_owner owner s
    if not (is_some report) && (owner.kind == Kind.deployment || owner.kind == Kind.pod)
        then find_by_related_replica_set owner s
        else ok report

  unfoldable pub audit_read_writer : AuditReadWriter S
  audit_read_writer = record {
    write_report = write_report server;
    write_cluster_report = write_cluster_report server;
    find_report_by_owner = find_report_by_owner;
    find_report_by_owner_in_hierarchy = find_report_by_owner_in_hierarchy;
    find_cluster_report_by_owner = find_cluster_report_by_owner;
  }
