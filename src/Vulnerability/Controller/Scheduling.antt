-- ===== src/Vulnerability/Controller/Scheduling.antt =====
-- When does reconcileWorkload change anything, and when does it ask to be called again?
use starboard.Prelude.{
  String, true, false, ◌≡◌, refl, ◌⊎◌, inl, inr, Result, ok, err, wrap_ok, is_not_found, Bool-cases,
  Option-cases, Error, ℕ, if◌then◌else◌,
}
use starboard.Prelude.Action.{Action, return, fail, ◌>>=◌, ◌>>◌, handle-reading, >>=-reading}
use starboard.Kube.Object.{
  Object, ObjectRef, ObjectKey, PodSpec, object_ref_from_kind_and_object_key, get_pod_spec,
  get_container_images_from_pod_spec,
}
use starboard.Kube.Resolver.{object_from_object_ref}
use starboard.Vulnerability.Controller.{Controller, Outcome, done, has_reports}
use starboard.Vulnerability.Controller.Needs.{
  NotSkipped, Unreported, NoScanJob, skips-NotSkipped, has_reports-Unreported,
  has_active_scan_job-NoScanJob,
}
use starboard.Vulnerability.Controller.Submit.{submit_scan_job}
use starboard.Vulnerability.Controller.Workload.{
  schedule, unless_scanning, unless_reported, scan_if_needed, unless_skipped, reconcile_workload,
}

module _ {S : Type 0} (r : Controller S) (s : S) where
  -- All that has to be so before a scan of an object is submitted, with the number of jobs at that time.
  pub record NeedsScan (ref : ObjectRef) (obj : Object) : Type 0 where
    pub spec : PodSpec
    pub count : ℕ
    pub has_spec : get_pod_spec obj ≡ ok spec
    pub unreported :
        Unreported r s ref
          (r.kit.hashing.hash_pod_spec spec)
          (get_container_images_from_pod_spec spec)
    pub no_job : NoScanJob r s ref (r.kit.hashing.hash_pod_spec spec)
    pub room : r.limit_checker.check s ≡ ok (false, count)

  -- The two kinds of runs that change nothing on the server.
  pub data Unchanged (out : Result Outcome × S) : Type 0 where
    stops : out ≡ (ok done, s) → Unchanged out
    fails : (e : Error) → out ≡ (err e, s) → Unchanged out
    waits :
        (n : ℕ)
        → r.limit_checker.check s ≡ ok (true, n)
        → out ≡ (ok (record { requeue_after = r.config.scan_job_retry_after }), s)
        → Unchanged out

  unfoldable pub submission : Object → Action S Outcome
  submission obj = do submit_scan_job r obj; return done

  schedule_cases :
      (obj : Object)
      → Unchanged (schedule r obj s)
        ⊎ ((n : ℕ) × (r.limit_checker.check s ≡ ok (false, n))
            × (schedule r obj s ≡ submission obj s))
  unfolding schedule submission ◌>>=◌
  schedule_cases obj =
      handle-reading
        (λ out.
          Unchanged out
          ⊎ ((n : ℕ) × (r.limit_checker.check s ≡ ok (false, n)) × (out ≡ submission obj s)))
        r.limit_checker.check
        (λ limit.
          if limit.0
          then return (record { requeue_after = r.config.scan_job_retry_after })
          else submission obj)
        fail s
        (λ (full, n) checked. elim (Bool-cases full) [
          | inl e ↦ rw e (inl (waits n (rw e at checked) refl))
          | inr e ↦ rw e (inr (n, rw e at checked, refl))
        ])
        (λ e failed. inl (fails e refl))

  abbrev Either : ObjectRef → Object → Result Outcome × S → Type 0
  Either ref obj out = Unchanged out ⊎ (NeedsScan ref obj × (out ≡ submission obj s))

  unless_scanning_cases :
      (ref : ObjectRef) (obj : Object) (spec : PodSpec)
      → get_pod_spec obj ≡ ok spec
      → has_reports r ref
          (r.kit.hashing.hash_pod_spec spec)
          (get_container_images_from_pod_spec spec)
          s
        ≡ ok false
      → Either ref obj (unless_scanning r ref obj (r.kit.hashing.hash_pod_spec spec) s)
  unfolding unless_scanning return
  unless_scanning_cases ref obj spec has_spec unreported =
      >>=-reading (Either ref obj) _ _ s
        (λ job asked. elim (Option-cases job) [
          | inl q ↦ rw q (elim (schedule_cases obj) [
            | inl u ↦ inl u
            | inr (n, room, out) ↦ inr (
              record {
                spec = spec;
                count = n;
                has_spec = has_spec;
                unreported = has_reports-Unreported r s ref _ _ unreported;
                no_job = has_active_scan_job-NoScanJob r s ref _ (wrap_ok _ _ _ (rw q at asked));
                room = room;
              },
              out,
            )
          ])
          | inr (j, q) ↦ rw q (inl (stops refl))
        ])
        (λ e failed. inl (fails e refl))

  unless_reported_cases :
      (ref : ObjectRef) (obj : Object) (spec : PodSpec)
      → get_pod_spec obj ≡ ok spec
      → Either ref obj (unless_reported r ref obj spec s)
  unfolding unless_reported return
  unless_reported_cases ref obj spec has_spec =
      >>=-reading (Either ref obj) _ _ s
        (λ reported known. elim (Bool-cases reported) [
          | inl p ↦ rw p (inl (stops refl))
          | inr p ↦
              rw p (unless_scanning_cases ref obj spec has_spec (wrap_ok _ _ _ (rw p at known)))
        ])
        (λ e failed. inl (fails e refl))

  scan_if_needed_cases :
      (ref : ObjectRef) (obj : Object) → Either ref obj (scan_if_needed r ref obj s)
  unfolding scan_if_needed return
  scan_if_needed_cases ref obj =
      >>=-reading (Either ref obj) _ _ s (λ spec got. unless_reported_cases ref obj spec got)
        (λ e failed. inl (fails e refl))

  -- The object that the event is about, where it is there and is not skipped.
  pub record Scans (kind : String) (key : ObjectKey) (out : Result Outcome × S) : Type 0 where
    pub obj : Object
    pub found :
        object_from_object_ref (r.server.cluster s) (object_ref_from_kind_and_object_key kind key)
        ≡ ok obj
    pub not_skipped : NotSkipped r s kind obj
    pub needed : NeedsScan (object_ref_from_kind_and_object_key kind key) obj
    pub submitted : out ≡ submission obj s

  unless_skipped_cases :
      (kind : String) (key : ObjectKey) (obj : Object)
      → object_from_object_ref (r.server.cluster s) (object_ref_from_kind_and_object_key kind key)
        ≡ ok obj
      → Unchanged (unless_skipped r kind (object_ref_from_kind_and_object_key kind key) obj s)
        ⊎ Scans kind key
            (unless_skipped r kind (object_ref_from_kind_and_object_key kind key) obj s)
  unfolding unless_skipped return
  unless_skipped_cases kind key obj found =
      >>=-reading (λ out. Unchanged out ⊎ Scans kind key out) _ _ s
        (λ skip asked. elim (Bool-cases skip) [
          | inl p ↦ rw p (inl (stops refl))
          | inr p ↦
              rw p (elim (scan_if_needed_cases (object_ref_from_kind_and_object_key kind key) obj) [
                | inl u ↦ inl u
                | inr (needed, out) ↦ inr (record {
                  obj = obj;
                  found = found;
                  not_skipped = skips-NotSkipped r s kind obj (rw p at asked);
                  needed = needed;
                  submitted = out;
                })
              ])
        ])
        (λ e failed. inl (fails e refl))

  -- A run of reconcileWorkload either leaves the server as it was, and then it is over, has failed, or asks
  -- to be called again after the configured delay since the limit is exceeded; or it is a run of
  -- submitScanJob on the object of the event: it is there; it is no pod of a built-in workload, no job of a
  -- cron job, and, where only current revisions are scanned, no ReplicaSet but an active one; the containers of
  -- its pod spec are not just those with a report of that spec; in the operator's namespace the job
  -- of its name is missing or of another pod spec; and the limit is not exceeded.
  pub reconcile_workload_cases :
      (kind : String) (key : ObjectKey)
      → Unchanged (reconcile_workload r kind key s)
        ⊎ Scans kind key (reconcile_workload r kind key s)
  unfolding reconcile_workload return fail
  reconcile_workload_cases kind key =
      handle-reading (λ out. Unchanged out ⊎ Scans kind key out) _ _ _ s
        (λ obj found. unless_skipped_cases kind key obj found)
        (λ e failed. elim (Bool-cases (is_not_found e)) [
          | inl p ↦ rw p (inl (stops refl))
          | inr p ↦ rw p (inl (fails _ refl))
        ])
