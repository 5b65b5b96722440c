-- ===== src/Vulnerability/Controller/Workload.antt =====
-- reconcileWorkload: does this workload need a scan, and is there room for one?
use starboard.Prelude.{
  String, Bool, true, false, Option, none, some, ◌==◌, ◌&&◌, not, if◌then◌else◌, wrapped, Result,
  ok, err, is_not_found, wrap, is_some,
}
use starboard.Prelude.Action.{Action, return, fail, reading, handle, ◌>>=◌, ◌>>◌}
use starboard.Kube.Kind
use starboard.Kube.Kind.{OwnerReference, is_built_in_workload}
use starboard.Kube.Object.{
  Object, ObjectRef, ObjectKey, PodSpec, object_ref_from_kind_and_object_key, get_pod_spec,
  get_container_images_from_pod_spec,
}
use starboard.Kube.Resolver.{object_from_object_ref, is_active_replica_set}
use starboard.Vulnerability.Controller.{Controller, Outcome, done, has_reports, has_active_scan_job}
use starboard.Vulnerability.Controller.Submit.{submit_scan_job}

unfoldable pub controlled_by_cron_job : Option OwnerReference → Bool
controlled_by_cron_job none = false
controlled_by_cron_job (some controller) = controller.kind == Kind.cron_job

module _ {S : Type 0} (r : Controller S) where
  -- The checks on who manages the workload, in the order of the code: true where it is skipped.
  unfoldable pub skips : String → Object → S → Result Bool
  unfolding controlled_by_cron_job
  skips kind obj s =
      if kind == Kind.pod && is_built_in_workload obj.meta.controller
      then ok true
      else if r.config.vulnerability_scanner_scan_only_current_revisions && kind == Kind.replica_set
      then elim (is_active_replica_set (r.server.cluster s) obj obj.meta.controller) [
        | err e ↦ err (wrapped "failed checking current revision" e)
        | ok active ↦ ok (not active)
      ]
      else ok (kind == Kind.job && controlled_by_cron_job obj.meta.controller)

  -- From the limit check on.
  unfoldable pub schedule : Object → Action S Outcome
  schedule obj = do
    limit ← reading r.limit_checker.check
    if limit.0
        then return (record { requeue_after = r.config.scan_job_retry_after })
        else (do submit_scan_job r obj; return done)

  -- From the look for a running scan job on.
  unfoldable pub unless_scanning : ObjectRef → Object → String → Action S Outcome
  unfolding schedule
  unless_scanning ref obj hash = do
    job ← reading (λ s. wrap "checking scan job" (has_active_scan_job r ref hash s))
    if is_some job then return done else schedule obj

  -- From the look at the reports on.
  unfoldable pub unless_reported : ObjectRef → Object → PodSpec → Action S Outcome
  unfolding unless_scanning
  unless_reported ref obj spec = do
    let hash = r.kit.hashing.hash_pod_spec spec
    reported ← reading (λ s.
        wrap "getting vulnerability reports"
          (has_reports r ref hash (get_container_images_from_pod_spec spec) s))
    if reported then return done else unless_scanning ref obj hash

  -- From the pod spec on.
  unfoldable pub scan_if_needed : ObjectRef → Object → Action S Outcome
  unfolding unless_reported
  scan_if_needed ref obj = do spec ← reading (λ s. get_pod_spec obj); unless_reported ref obj spec

  -- From the object on.
  unfoldable pub unless_skipped : String → ObjectRef → Object → Action S Outcome
  unfolding skips scan_if_needed
  unless_skipped kind ref obj = do
    skip ← reading (skips kind obj)
    if skip then return done else scan_if_needed ref obj

  unfoldable pub reconcile_workload : String → ObjectKey → Action S Outcome
  unfolding unless_skipped
  reconcile_workload kind key =
      let ref = object_ref_from_kind_and_object_key kind key in
      handle (reading (λ s. object_from_object_ref (r.server.cluster s) ref))
        (λ obj. unless_skipped kind ref obj)
        (λ e.
          if is_not_found e then return done else fail (wrapped "getting workload from cache" e))
