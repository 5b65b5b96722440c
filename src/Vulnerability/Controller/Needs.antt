-- ===== src/Vulnerability/Controller/Needs.antt =====
-- What the checks of reconcileWorkload before a scan find out of the object, its reports and its job.
use starboard.Prelude.{
  String, true, false, ◌≡◌, refl, none, inl, inr, ok, err, is_not_found, Bool-cases, Result-cases,
  Error, ◌==◌, ◌&&◌, eq_iff, ◌∙◌, sym, ap, ok_injective, false≢true, List, Map, keys, contains,
  value, concat, arith,
}
use starboard.Constants.{label_resource_spec_hash}
use starboard.Kube.Kind
use starboard.Kube.Kind.{is_built_in_workload}
use starboard.Kube.Server.{ScanJob}
use starboard.Report.{VulnerabilityReport}
use starboard.Vulnerability.Controller.Reported.{is_reported, has_reports_iff}
use starboard.Kube.Object.{Object, ObjectRef, ObjectKey}
use starboard.Kube.Resolver.{is_active_replica_set}
use starboard.Vulnerability.Controller.{Controller, has_reports, has_active_scan_job}
use starboard.Vulnerability.Controller.Workload.{controlled_by_cron_job, skips}

module _ {S : Type 0} (r : Controller S) (s : S) where
  -- Nobody else answers for the object: it is no pod of a built-in workload, no job of a cron job, and, where only
  -- current revisions are scanned, no ReplicaSet but an active one.
  pub record NotSkipped (kind : String) (obj : Object) : Type 0 where
    pub no_pod : (kind == Kind.pod && is_built_in_workload obj.meta.controller) ≡ false
    pub no_job : (kind == Kind.job && controlled_by_cron_job obj.meta.controller) ≡ false
    pub current :
        (r.config.vulnerability_scanner_scan_only_current_revisions && kind == Kind.replica_set)
          ≡ true
        → is_active_replica_set (r.server.cluster s) obj obj.meta.controller ≡ ok true

  pub skips-NotSkipped :
      (kind : String) (obj : Object) → skips r kind obj s ≡ ok false → NotSkipped kind obj
  unfolding skips
  skips-NotSkipped kind obj h =
      elim (Bool-cases (kind == Kind.pod && is_built_in_workload obj.meta.controller)) [
        | inl p ↦ absurd (cc (rw p at h))
        | inr p ↦
            elim (Bool-cases (
              r.config.vulnerability_scanner_scan_only_current_revisions
              && kind == Kind.replica_set)) [
                | inl q ↦
                    elim (Result-cases
                      (is_active_replica_set (r.server.cluster s) obj obj.meta.controller)) [
                        | inl (e, bad) ↦ absurd (cc (rw (p, q, bad) at h))
                        | inr (active, asked) ↦ elim (Bool-cases active) [
                          | inl on ↦ record {
                            no_pod = p;
                            no_job =
                                let replica_set =
                                  (eq_iff kind Kind.replica_set).0 (ground (arith, q)) in
                                rw replica_set refl;
                            current = λ _. asked ∙ ap ok on;
                          }
                          | inr outdated ↦ absurd (cc (rw (p, q, asked, outdated) at h))
                        ]
                      ]
                | inr q ↦ record {
                  no_pod = p;
                  no_job = ok_injective (rw (p, q) at h);
                  current = λ on. absurd (false≢true (sym q ∙ on));
                }
              ]
      ]

  -- The reports of the owner can be listed, and they are not those of the containers with this pod spec.
  pub record Unreported (ref : ObjectRef) (hash : String) (images : Map String) : Type 0 where
    pub reports : List VulnerabilityReport
    pub listed : r.read_writer.find_by_owner ref s ≡ ok reports
    pub incomplete : ¬ ((c : String) → is_reported hash c reports ≡ contains (keys images) c)

  pub has_reports-Unreported :
      (ref : ObjectRef) (hash : String) (images : Map String)
      → has_reports r ref hash images s ≡ ok false
      → Unreported ref hash images
  unfolding has_reports
  has_reports-Unreported ref hash images h =
      elim (Result-cases (r.read_writer.find_by_owner ref s)) [
        | inl (e, bad) ↦ absurd (cc (rw (has_reports, bad) at h))
        | inr (reports, listed) ↦ record {
          reports = reports;
          listed = listed;
          incomplete = λ same.
              let all = (has_reports_iff r ref hash images s reports listed).1 same in
              false≢true (ok_injective (sym h ∙ all));
        }
      ]

  abbrev pub job_key : ObjectRef → ObjectKey
  job_key ref = record {
    name = concat "scan-vulnerabilityreport-" (r.kit.hashing.hash_ref ref);
    namespace = r.config.namespace;
  }

  -- The operator's namespace has no job of the name for scans of the owner, or one for another pod spec.
  pub data NoScanJob (ref : ObjectRef) (hash : String) : Type 0 where
    absent :
        (e : Error)
        → r.server.get_job (job_key ref) s ≡ err e
        → is_not_found e ≡ true
        → NoScanJob ref hash
    other_spec :
        (job : ScanJob)
        → r.server.get_job (job_key ref) s ≡ ok job
        → (value label_resource_spec_hash job.meta.labels == hash) ≡ false
        → NoScanJob ref hash

  pub has_active_scan_job-NoScanJob :
      (ref : ObjectRef) (hash : String)
      → has_active_scan_job r ref hash s ≡ ok none
      → NoScanJob ref hash
  unfolding has_active_scan_job
  has_active_scan_job-NoScanJob ref hash h =
      elim (Result-cases (r.server.get_job (job_key ref) s)) [
        | inl (e, bad) ↦ elim (Bool-cases (is_not_found e)) [
          | inl p ↦ absent e bad p
          | inr p ↦ absurd (cc (rw (has_active_scan_job, bad, p) at h))
        ]
        | inr (job, found) ↦
            elim (Bool-cases (value label_resource_spec_hash job.meta.labels == hash)) [
              | inl p ↦ absurd (cc (rw (has_active_scan_job, found, p) at h))
              | inr p ↦ other_spec job found p
            ]
      ]
