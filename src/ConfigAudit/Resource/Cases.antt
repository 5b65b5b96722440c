-- ===== src/ConfigAudit/Resource/Cases.antt =====
-- When does reconcileResource change anything?
use starboard.Prelude.{
  String, true, false, ◌≡◌, refl, ◌⊎◌, inl, inr, Result, ok, err, wrap_ok, is_not_found, Bool-cases,
  Error,
}
use starboard.Prelude.Action.{Action, return, fail, ◌>>◌, handle-reading, >>=-reading}
use starboard.Kube.Object.{
  Object, ObjectRef, ObjectKey, object_ref_from_kind_and_object_key, compute_spec_hash,
}
use starboard.Kube.Resolver.{object_from_object_ref}
use starboard.Kube.Server.{Outcome, done}
use starboard.Policy.{Policies, applicable, hash}
use starboard.ConfigAudit.{ConfigAuditReportData}
use starboard.ConfigAudit.Builder.{AuditReportBuilder, write_audit}
use starboard.ConfigAudit.Outdated.{
  Outdated, StandsAlone, resource-Outdated, skips_managed-StandsAlone,
}
use starboard.ConfigAudit.Resource.{
  ResourceController, has_report, policies, evaluate, report_builder, audit, audit_unless_current,
  hash_and_audit, audit_if_applicable, skips_managed, reconcile_resource,
}

module _ {S Module Compiler : Type 0} (r : ResourceController S Module Compiler) (s : S) where
  -- All that has to be so before a report is written.
  pub record NeedsAudit (kind : String) (ref : ObjectRef) (obj : Object) : Type 0 where
    pub source : Policies
    pub spec_hash : String
    pub config_hash : String
    pub evaluated : ConfigAuditReportData
    pub configured : policies r s ≡ ok source
    pub wanted : applicable source obj.type_kind ≡ ok true
    pub hashed_spec : compute_spec_hash r.kit.hashing obj ≡ ok spec_hash
    pub hashed_config : hash r.compute_hash source kind ≡ ok config_hash
    pub outdated : Outdated r.read_writer s ref spec_hash config_hash
    pub evaluates : evaluate r source obj ≡ ok evaluated

  unfoldable pub writing : AuditReportBuilder → Action S Outcome
  writing b = do write_audit r.kit r.read_writer b; return done

  unfoldable pub builder_of :
      (kind : String) (ref : ObjectRef) (obj : Object)
      → NeedsAudit kind ref obj
      → AuditReportBuilder
  unfolding report_builder
  builder_of kind ref obj needs =
      report_builder r obj needs.spec_hash needs.config_hash needs.evaluated

  -- The runs that change nothing on the server.
  pub data Unchanged (out : Result Outcome × S) : Type 0 where
    stops : out ≡ (ok done, s) → Unchanged out
    fails : (e : Error) → out ≡ (err e, s) → Unchanged out
    waits : out ≡ (ok (record { requeue_after = r.config.scan_job_retry_after }), s) → Unchanged out

  abbrev pub Writes : String → ObjectRef → Object → Result Outcome × S → Type 0
  Writes kind ref obj out =
      (needs : NeedsAudit kind ref obj) × (out ≡ writing (builder_of kind ref obj needs) s)

  abbrev pub Either : String → ObjectRef → Object → Result Outcome × S → Type 0
  Either kind ref obj out = Unchanged out ⊎ Writes kind ref obj out

  audit_cases :
      (kind : String) (ref : ObjectRef) (obj : Object) (source : Policies)
      (spec_hash config_hash : String)
      → policies r s ≡ ok source
      → applicable source obj.type_kind ≡ ok true
      → compute_spec_hash r.kit.hashing obj ≡ ok spec_hash
      → hash r.compute_hash source kind ≡ ok config_hash
      → has_report r ref spec_hash config_hash s ≡ ok false
      → Either kind ref obj (audit r source obj spec_hash config_hash s)
  unfolding audit writing builder_of
  audit_cases kind ref obj source spec_hash config_hash configured wanted spec config outdated =
      >>=-reading (Either kind ref obj) _ _ s
        (λ evaluated got. inr (
          record {
            source = source;
            spec_hash = spec_hash;
            config_hash = config_hash;
            evaluated = evaluated;
            configured = configured;
            wanted = wanted;
            hashed_spec = spec;
            hashed_config = config;
            outdated = resource-Outdated r s ref spec_hash config_hash outdated;
            evaluates = wrap_ok _ _ evaluated got;
          },
          refl,
        ))
        (λ e failed. inl (fails e refl))

  audit_unless_current_cases :
      (kind : String) (ref : ObjectRef) (obj : Object) (source : Policies)
      (spec_hash config_hash : String)
      → policies r s ≡ ok source
      → applicable source obj.type_kind ≡ ok true
      → compute_spec_hash r.kit.hashing obj ≡ ok spec_hash
      → hash r.compute_hash source kind ≡ ok config_hash
      → Either kind ref obj (audit_unless_current r ref source obj spec_hash config_hash s)
  unfolding audit_unless_current return
  audit_unless_current_cases kind ref obj source spec_hash config_hash configured wanted spec
        config =
      >>=-reading (Either kind ref obj) _ _ s
        (λ current asked. elim (Bool-cases current) [
          | inl p ↦ rw p (inl (stops refl))
          | inr p ↦ rw p (
              audit_cases kind ref obj source spec_hash config_hash configured wanted spec config
                (wrap_ok _ _ _ (rw p at asked)))
        ])
        (λ e failed. inl (fails e refl))

  audit_if_applicable_cases :
      (kind : String) (ref : ObjectRef) (obj : Object)
      → Either kind ref obj (audit_if_applicable r kind ref obj s)
  unfolding audit_if_applicable hash_and_audit return
  audit_if_applicable_cases kind ref obj =
      >>=-reading (Either kind ref obj) _ _ s
        (λ source configured.
          >>=-reading (Either kind ref obj) _ _ s
            (λ wanted asked. elim (Bool-cases wanted) [
              | inl p ↦ rw p (
                  >>=-reading (Either kind ref obj) _ _ s
                    (λ spec_hash spec.
                      >>=-reading (Either kind ref obj) _ _ s
                        (λ config_hash config.
                          audit_unless_current_cases kind ref obj source spec_hash config_hash
                            (wrap_ok _ _ _ configured) (wrap_ok _ _ _ (rw p at asked))
                            (wrap_ok _ _ _ spec) (wrap_ok _ _ _ config))
                        (λ e failed. inl (fails e refl)))
                    (λ e failed. inl (fails e refl)))
              | inr p ↦ rw p (inl (waits refl))
            ])
            (λ e failed. inl (fails e refl)))
        (λ e failed. inl (fails e refl))

  -- The object that the event is about, where it is there and is not skipped.
  pub record Audits (kind : String) (key : ObjectKey) (out : Result Outcome × S) : Type 0 where
    pub obj : Object
    pub found :
        object_from_object_ref
          (r.server.base.cluster s)
          (object_ref_from_kind_and_object_key kind key)
        ≡ ok obj
    pub passed : skips_managed kind obj ≡ false
    pub not_skipped : StandsAlone kind obj
    pub written : Writes kind (object_ref_from_kind_and_object_key kind key) obj out

  -- A run of reconcileResource of the built-in audit either leaves the server as it was, and is over, has failed,
  -- or asks to be called again after the configured delay; or it is the write of one report, and then the
  -- object of the event is there, is no pod of a
  -- built-in workload and no job of a cron job, policies apply to it, its report is missing or of another hash of
  -- the object or of the policies, and the content of the new one is what the policies say of the object.
  pub reconcile_resource_cases :
      (kind : String) (key : ObjectKey)
      → Unchanged (reconcile_resource r kind key s)
        ⊎ Audits kind key (reconcile_resource r kind key s)
  unfolding reconcile_resource return fail
  reconcile_resource_cases kind key =
      handle-reading (λ out. Unchanged out ⊎ Audits kind key out) _ _ _ s
        (λ obj found. elim (Bool-cases (skips_managed kind obj)) [
          | inl p ↦ rw p (inl (stops refl))
          | inr p ↦
              rw p
                (elim (audit_if_applicable_cases kind (object_ref_from_kind_and_object_key kind key)
                  obj) [
                    | inl u ↦ inl u
                    | inr w ↦ inr (record {
                      obj = obj;
                      found = found;
                      passed = p;
                      not_skipped = skips_managed-StandsAlone kind obj p;
                      written = w;
                    })
                  ])
        ])
        (λ e failed. elim (Bool-cases (is_not_found e)) [
          | inl p ↦ rw p (inl (stops refl))
          | inr p ↦ rw p (inl (fails _ refl))
        ])
