-- ===== src/ConfigAudit/Scans/Scheduling.antt =====
-- When is a job submitted for a resource?
use starboard.Prelude.{
  String, ℕ, true, false, ◌≡◌, refl, none, ◌⊎◌, inl, inr, Result, ok, err, wrap_ok, is_not_found,
  Bool-cases, Option-cases, Error, Result-cases, value, ◌==◌,
}
use starboard.Prelude.Action.{return, fail, handle-reading, >>=-reading}
use starboard.Kube.Object.{
  Object, ObjectRef, ObjectKey, object_ref_from_kind_and_object_key, compute_spec_hash,
}
use starboard.Kube.Resolver.{object_from_object_ref}
use starboard.Kube.Server.{Outcome, done, ScanJob}
use starboard.Constants.{label_resource_spec_hash}
use starboard.ConfigAudit.Builder.{audit_job_name}
use starboard.ConfigAudit.Outdated.{Outdated, StandsAlone, scans-Outdated, skips_scan-StandsAlone}
use starboard.ConfigAudit.Scans.{
  AuditReconciler, skips_scan, has_report, has_active_scan_job, submit_scan, schedule_scan,
  scan_unless_active, scan_unless_reported, hash_and_scan, scan_if_applicable, reconcile_resource,
}

module _ {S : Type 0} (r : AuditReconciler S) (s : S) where
  abbrev job_key : Object → ObjectKey
  job_key obj = record { name = audit_job_name r.kit obj; namespace = r.config.namespace }

  -- The operator's namespace has no job of the name for the object, or one for another hash of it.
  pub data NoScanJob (obj : Object) (spec_hash : String) : Type 0 where
    absent :
        (e : Error)
        → r.server.base.get_job (job_key obj) s ≡ err e
        → is_not_found e ≡ true
        → NoScanJob obj spec_hash
    other_spec :
        (job : ScanJob)
        → r.server.base.get_job (job_key obj) s ≡ ok job
        → (value label_resource_spec_hash job.meta.labels == spec_hash) ≡ false
        → NoScanJob obj spec_hash

  has_active_scan_job-NoScanJob :
      (obj : Object) (spec_hash : String)
      → has_active_scan_job r obj spec_hash s ≡ ok none
      → NoScanJob obj spec_hash
  unfolding has_active_scan_job
  has_active_scan_job-NoScanJob obj spec_hash h =
      elim (Result-cases (r.server.base.get_job (job_key obj) s)) [
        | inl (e, bad) ↦ elim (Bool-cases (is_not_found e)) [
          | inl p ↦ absent e bad p
          | inr p ↦ absurd (cc (rw (has_active_scan_job, bad, p) at h))
        ]
        | inr (job, found) ↦
            elim (Bool-cases (value label_resource_spec_hash job.meta.labels == spec_hash)) [
              | inl p ↦ absurd (cc (rw (has_active_scan_job, found, p) at h))
              | inr p ↦ other_spec job found p
            ]
      ]

  -- All that has to be so before a job is submitted.
  pub record NeedsScan (ref : ObjectRef) (obj : Object) : Type 0 where
    pub spec_hash : String
    pub config_hash : String
    pub count : ℕ
    pub applies : r.plugin.is_applicable r.plugin_context obj s ≡ ok true
    pub hashed_spec : compute_spec_hash r.kit.hashing obj ≡ ok spec_hash
    pub hashed_config : r.plugin.config_hash r.plugin_context obj.type_kind s ≡ ok config_hash
    pub outdated : Outdated r.read_writer s ref spec_hash config_hash
    pub inactive : NoScanJob obj spec_hash
    pub room : r.limit_checker.check s ≡ ok (false, count)

  -- The runs that change nothing on the server: both reasons to come back later are told.
  pub data Idle (obj : Object) (out : Result Outcome × S) : Type 0 where
    stops : out ≡ (ok done, s) → Idle obj out
    fails : (e : Error) → out ≡ (err e, s) → Idle obj out
    not_applicable :
        r.plugin.is_applicable r.plugin_context obj s ≡ ok false
        → out ≡ (ok (record { requeue_after = r.config.scan_job_retry_after }), s)
        → Idle obj out
    full :
        (n : ℕ)
        → r.limit_checker.check s ≡ ok (true, n)
        → out ≡ (ok (record { requeue_after = r.config.scan_job_retry_after }), s)
        → Idle obj out

  abbrev Either : ObjectRef → Object → Result Outcome × S → Type 0
  Either ref obj out = Idle obj out ⊎ (NeedsScan ref obj × (out ≡ submit_scan r obj s))

  module _ (ref : ObjectRef) (obj : Object) where
    schedule_scan_cases :
        Idle obj (schedule_scan r obj s)
        ⊎ ((n : ℕ) × (r.limit_checker.check s ≡ ok (false, n))
            × (schedule_scan r obj s ≡ submit_scan r obj s))
    unfolding schedule_scan return
    schedule_scan_cases =
        >>=-reading
          (λ out.
            Idle obj out
            ⊎ ((n : ℕ) × (r.limit_checker.check s ≡ ok (false, n)) × (out ≡ submit_scan r obj s)))
          _ _ s
          (λ (over, n) checked. elim (Bool-cases over) [
            | inl p ↦ rw p (inl (full n (rw p at checked) refl))
            | inr p ↦ rw p (inr (n, rw p at checked, refl))
          ])
          (λ e failed. inl (fails e refl))

    module _ (spec_hash config_hash : String)
        (applies : r.plugin.is_applicable r.plugin_context obj s ≡ ok true)
        (spec : compute_spec_hash r.kit.hashing obj ≡ ok spec_hash)
        (config : r.plugin.config_hash r.plugin_context obj.type_kind s ≡ ok config_hash) where
      scan_unless_active_cases :
          has_report r ref spec_hash config_hash s ≡ ok false
          → Either ref obj (scan_unless_active r obj spec_hash s)
      unfolding scan_unless_active return
      scan_unless_active_cases outdated =
          >>=-reading (Either ref obj) _ _ s
            (λ job asked. elim (Option-cases job) [
              | inl nothing ↦ rw nothing (elim schedule_scan_cases [
                | inl idle ↦ inl idle
                | inr (n, room, out) ↦ inr (
                  record {
                    spec_hash = spec_hash;
                    config_hash = config_hash;
                    count = n;
                    applies = applies;
                    hashed_spec = spec;
                    hashed_config = config;
                    outdated = scans-Outdated r s ref spec_hash config_hash outdated;
                    inactive = has_active_scan_job-NoScanJob obj spec_hash (rw nothing at asked);
                    room = room;
                  },
                  out,
                )
              ])
              | inr (j, there) ↦ rw there (inl (stops refl))
            ])
            (λ e failed. inl (fails e refl))

      scan_unless_reported_cases :
          Either ref obj (scan_unless_reported r ref obj spec_hash config_hash s)
      unfolding scan_unless_reported return
      scan_unless_reported_cases =
          >>=-reading (Either ref obj) _ _ s
            (λ current asked. elim (Bool-cases current) [
              | inl p ↦ rw p (inl (stops refl))
              | inr p ↦ rw p (scan_unless_active_cases (rw p at asked))
            ])
            (λ e failed. inl (fails e refl))

    scan_if_applicable_cases : Either ref obj (scan_if_applicable r ref obj s)
    unfolding scan_if_applicable hash_and_scan return
    scan_if_applicable_cases =
        >>=-reading (Either ref obj) _ _ s
          (λ wanted asked. elim (Bool-cases wanted) [
            | inl p ↦ rw p (
                >>=-reading (Either ref obj) _ _ s
                  (λ spec_hash spec.
                    >>=-reading (Either ref obj) _ _ s
                      (λ config_hash config.
                        scan_unless_reported_cases spec_hash config_hash
                          (wrap_ok _ _ _ (rw p at asked)) (wrap_ok _ _ _ spec)
                          (wrap_ok _ _ _ config))
                      (λ e failed. inl (fails e refl)))
                  (λ e failed. inl (fails e refl)))
            | inr p ↦ rw p (inl (not_applicable (wrap_ok _ _ _ (rw p at asked)) refl))
          ])
          (λ e failed. inl (fails e refl))

  -- What a run says: it stops or fails before the object is known, or the object is there.
  pub data Reconciled (kind : String) (key : ObjectKey) (out : Result Outcome × S) : Type 0 where
    ignored : out ≡ (ok done, s) → Reconciled kind key out
    unread : (e : Error) → out ≡ (err e, s) → Reconciled kind key out
    idles :
        (obj : Object)
        → object_from_object_ref
            (r.server.base.cluster s)
            (object_ref_from_kind_and_object_key kind key)
          ≡ ok obj
        → Idle obj out
        → Reconciled kind key out
    submits :
        (obj : Object)
        → object_from_object_ref
            (r.server.base.cluster s)
            (object_ref_from_kind_and_object_key kind key)
          ≡ ok obj
        → StandsAlone kind obj
        → NeedsScan (object_ref_from_kind_and_object_key kind key) obj
        → out ≡ submit_scan r obj s
        → Reconciled kind key out

  -- A run of reconcileResource of the audit by a plugin either leaves the server as it was, and then it is over,
  -- has failed, or asks to be called again after the configured delay since the plugin does not apply or
  -- the limit is exceeded; or it is the submission of a job for an object that is there, is no pod
  -- of a built-in workload and no job of a cron job, to which the plugin applies, whose report is missing or of
  -- another hash of the object or of the plugin's settings; in the operator's namespace the job of its name is
  -- missing or of another hash of the object; and the limit is not exceeded.
  pub reconcile_resource-Reconciled :
      (kind : String) (key : ObjectKey) → Reconciled kind key (reconcile_resource r kind key s)
  unfolding reconcile_resource return fail
  reconcile_resource-Reconciled kind key =
      handle-reading (Reconciled kind key) _ _ _ s
        (λ obj found. elim (Bool-cases (skips_scan kind obj)) [
          | inl p ↦ rw p (ignored refl)
          | inr p ↦
              rw p
                (elim (scan_if_applicable_cases (object_ref_from_kind_and_object_key kind key)
                  obj) [
                    | inl idle ↦ idles obj found idle
                    | inr (needs, out) ↦
                        submits obj found (skips_scan-StandsAlone kind obj p) needs out
                  ])
        ])
        (λ e failed. elim (Bool-cases (is_not_found e)) [
          | inl p ↦ rw p (ignored refl)
          | inr p ↦ rw p (unread _ refl)
        ])
