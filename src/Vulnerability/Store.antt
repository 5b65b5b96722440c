-- ===== src/Vulnerability/Store.antt =====
-- The reader and writer of vulnerability reports: pkg/vulnerabilityreport/io.go.
pub mod Writes
use starboard.Prelude.{
  String, Bool, true, false, ◌&&◌, ◌||◌, List, [], ◌∷◌, if◌then◌else◌, ◌==◌, Result, ok,
  is_not_found, wrap, ◌>>=◌,
}
use starboard.Prelude.Action.{Action, return, fail, reading, handle}
use starboard.Kube.Kind
use starboard.Kube.Object.{ObjectRef, Hashing}
use starboard.Kube.Reference.{object_ref_to_labels}
use starboard.Kube.Resolver.{related_replica_set_name}
use starboard.Kube.Server.{Server, key_of}
use starboard.Report.{VulnerabilityReport}

-- The interface ReadWriter.
pub record ReadWriter (S : Type 0) : Type 0 where
  pub find_by_owner : ObjectRef → S → Result (List VulnerabilityReport)
  pub find_by_owner_in_hierarchy : ObjectRef → S → Result (List VulnerabilityReport)
  pub write : List VulnerabilityReport → Action S (Unit {0})

module _ {S : Type 0} (server : Server S) where
  -- An existing report keeps its metadata but for the labels.
  unfoldable pub create_or_update : VulnerabilityReport → Action S (Unit {0})
  create_or_update report =
      handle (reading (server.get_report (key_of report.meta)))
        (λ existing. server.update_report (record {
          meta = record existing.meta { labels = report.meta.labels };
          report = report.report;
        }))
        (λ e. if is_not_found e then server.create_report report else fail e)

  unfoldable pub write : List VulnerabilityReport → Action S (Unit {0})
  write [] = return tt
  write (report ∷ reports) = handle (create_or_update report) (λ _. write reports) fail

module _ {S : Type 0} (server : Server S) (valid_label : String → Bool) (h : Hashing) where
  unfoldable pub find_by_owner : ObjectRef → S → Result (List VulnerabilityReport)
  find_by_owner owner s =
      server.list_reports (object_ref_to_labels valid_label h owner) owner.namespace s

  is_empty : List VulnerabilityReport → Bool
  is_empty [] = true
  is_empty (r ∷ rs) = false

  find_by_related_replica_set : ObjectRef → S → Result (List VulnerabilityReport)
  find_by_related_replica_set owner s = do
    name ← wrap "getting replicaset related to" (related_replica_set_name (server.cluster s) owner)
    find_by_owner (record { kind = Kind.replica_set; name = name; namespace = owner.namespace }) s

  unfoldable pub find_by_owner_in_hierarchy : ObjectRef → S → Result (List VulnerabilityReport)
  unfolding is_empty find_by_related_replica_set
  find_by_owner_in_hierarchy owner s = do
    reports ← find_by_owner owner s
    if is_empty reports && (owner.kind == Kind.deployment || owner.kind == Kind.pod)
        then find_by_related_replica_set owner s
        else ok reports

  unfoldable pub read_writer : ReadWriter S
  read_writer = record {
    find_by_owner = find_by_owner;
    find_by_owner_in_hierarchy = find_by_owner_in_hierarchy;
    write = write server;
  }
