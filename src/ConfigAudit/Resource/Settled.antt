-- ===== src/ConfigAudit/Resource/Settled.antt =====
-- The store after a run of reconcileResource, and the same run once more.
use starboard.Prelude.{
  String, true, false, ◌≡◌, ◌∙◌, sym, ap, subst, refl, inl, inr, Result, ok, eq_refl, ok_injective,
  List, some,
}
use starboard.Prelude.Action.{return, reading, handle, ◌>>=◌, handle-fail_ok}
use starboard.Kube.Kind.{is_cluster_scoped_kind}
use starboard.Kube.Object.{Object, ObjectKey, object_ref_from_kind_and_object_key}
use starboard.Kube.Reference.{object_ref_to_labels}
use starboard.Kube.Reference.RoundTrip.{ref_of}
use starboard.Kube.Resolver.{object_from_object_ref}
use starboard.Kube.Server.{Outcome, done}
use starboard.ConfigAudit.{ConfigAuditReport}
use starboard.ConfigAudit.Store.{audit_read_writer, write_report}
use starboard.ConfigAudit.Store.Writes.{
  Stored, Stores, write_report-put, find_report_by_owner-write_report,
}
use starboard.ConfigAudit.Builder.{AuditReportBuilder, get_report, write_audit}
use starboard.ConfigAudit.Builder.Selected.{
  KeepsMeta, AllReportsOf, NoCollision, AllReportsOf-OnlyOne, put-AllReportsOf,
  get_report-IsReportOf, get_report-in_list, get_report-placed,
}
use starboard.ConfigAudit.Resource.{
  audit_if_applicable, hash_and_audit, audit_unless_current, ResourceController, has_report,
  policies, reconcile_resource,
}
use starboard.ConfigAudit.Resource.Cases.{
  Unchanged, stops, fails, waits, Audits, writing, builder_of, reconcile_resource_cases,
}

module _ {S Module Compiler : Type 0} (r : ResourceController S Module Compiler)
    (stored : S → Stored) where
  -- The controller works on the store of io.go, and the rest of the program is as documented: the server
  -- stores reports by name, and SetControllerReference keeps the metadata.
  pub record IsWired : Type 0 where
    pub store : r.read_writer ≡ audit_read_writer r.server r.kit.valid_label r.kit.hashing
    pub stores : Stores r.server.reports stored
    pub keeps : KeepsMeta r.kit

  module _ (wired : IsWired) where
    -- The write of a report of a namespaced object.
    record Wrote (b : AuditReportBuilder) (s s' : S) : Type 0 where
      rep : ConfigAuditReport
      built : get_report r.kit b ≡ ok rep
      ran : write_report r.server rep s ≡ (ok tt, s')

    write_audit-Wrote :
        (b : AuditReportBuilder) (s s' : S)
        → is_cluster_scoped_kind b.controller.type_kind ≡ false
        → write_audit r.kit r.read_writer b s ≡ (ok tt, s')
        → Wrote b s s'
    unfolding write_audit reading audit_read_writer
    write_audit-Wrote b s s' namespaced h =
        let (rep, t, got, ran) = handle-fail_ok _ _ s s' tt (rw (namespaced, wired.store) at h) in
        record {
          rep = rep;
          built = ap (λ p. p.0) got;
          ran =
              subst (λ x. write_report r.server rep x ≡ (ok tt, s')) (sym (ap (λ p. p.1) got)) ran;
        }

    write_audit-AllReportsOf :
        (b : AuditReportBuilder) (s s' : S)
        → is_cluster_scoped_kind b.controller.type_kind ≡ false
        → write_audit r.kit r.read_writer b s ≡ (ok tt, s')
        → AllReportsOf r.kit (stored s)
        → AllReportsOf r.kit (stored s')
    write_audit-AllReportsOf b s s' namespaced h all =
        let wrote = write_audit-Wrote b s s' namespaced h in
        put-AllReportsOf r.kit wrote.rep (stored s) (stored s')
          (write_report-put r.server stored wired.stores wrote.rep s s' wrote.ran)
          (λ key. wired.stores.named key s)
          (get_report-IsReportOf r.kit wired.keeps b wrote.rep wrote.built) all

    -- After the write the report is current.
    write_audit-has_report :
        (b : AuditReportBuilder) (s s' : S)
        → is_cluster_scoped_kind b.controller.type_kind ≡ false
        → write_audit r.kit r.read_writer b s ≡ (ok tt, s')
        → (all : AllReportsOf r.kit (stored s))
        → NoCollision r.kit (stored s) all b.controller.meta.name
        → (reports : List ConfigAuditReport)
        → r.server.reports.list
            (object_ref_to_labels r.kit.valid_label r.kit.hashing (ref_of b.controller))
            (some b.controller.meta.namespace)
            s'
          ≡ ok reports
        → has_report r (ref_of b.controller) b.resource_spec_hash b.plugin_config_hash s' ≡ ok true
    unfolding has_report audit_read_writer
    write_audit-has_report b s s' namespaced h all apart reports answered =
        let wrote = write_audit-Wrote b s s' namespaced h in
        let (listed, spec, config) = get_report-in_list r.kit wired.keeps b wrote.rep wrote.built in
        let placed = get_report-placed r.kit wired.keeps b wrote.rep wrote.built in
        let (x, found, labels) =
          find_report_by_owner-write_report r.server stored wired.stores r.kit.valid_label
            r.kit.hashing (ref_of b.controller) wrote.rep s s' reports wrote.ran listed
            (AllReportsOf-OnlyOne r.kit b.controller wrote.rep (stored s) all placed.0 placed.1
              apart)
            answered in
        rw
          (
            namespaced,
            wired.store,
            found,
            labels,
            spec,
            config,
            eq_refl b.resource_spec_hash,
            eq_refl b.plugin_config_hash,
          )
          refl

    -- The run in which all steps up to the report are as they were, and the report is current.
    current_run :
        (kind : String) (key : ObjectKey) (s s' : S)
        (audits : Audits r s kind key (reconcile_resource r kind key s))
        → r.server.base.cluster s' ≡ r.server.base.cluster s
        → policies r s' ≡ policies r s
        → has_report r
            (object_ref_from_kind_and_object_key kind key)
            audits.written.0.spec_hash
            audits.written.0.config_hash
            s'
          ≡ ok true
        → reconcile_resource r kind key s' ≡ (ok done, s')
    unfolding reconcile_resource audit_if_applicable hash_and_audit audit_unless_current ◌>>=◌
        handle reading return
    current_run kind key s s' audits same_cluster same_policies current =
        let needs = audits.written.0 in
        simp (
          same_cluster, audits.found, audits.passed, same_policies, needs.configured, needs.wanted,
          needs.hashed_spec, needs.hashed_config, current,
        )

    -- A run that changes nothing ends where it began.
    same_state_after :
        (s s' : S) (res : Result Outcome × S) (out : Outcome)
        → Unchanged r s res
        → res ≡ (ok out, s')
        → s' ≡ s
    same_state_after s s' res out (stops e) h = ap (λ p. p.1) (sym h ∙ e)
    same_state_after s s' res out (fails _ e) h = ap (λ p. p.1) (sym h ∙ e)
    same_state_after s s' res out (waits e) h = ap (λ p. p.1) (sym h ∙ e)

    -- What a run that writes has done.
    writing_ok :
        (b : AuditReportBuilder) (s s' : S) (out : Outcome)
        → writing r s b s ≡ (ok out, s')
        → (write_audit r.kit r.read_writer b s ≡ (ok tt, s')) × (out ≡ done)
    unfolding writing ◌>>=◌ return
    writing_ok b s s' out h =
        let (_, t, wrote, ended) =
          handle-fail_ok (write_audit r.kit r.read_writer b) (λ _. return done) s s' out h in
        (
          wrote ∙ ap (λ x. (ok tt, x)) (ap (λ p. p.1) ended),
          sym (ok_injective (ap (λ p. p.0) ended)),
        )

    -- A run of reconcileResource that succeeds for a namespaced kind keeps the invariant of the store, that each
    -- report was made for an owner under the name that goes with it; and where the object and the policies do not
    -- change, the same run once more changes nothing and ends in the same way. For this the server stores reports
    -- by name and answers the list for the owner after the run; SetControllerReference keeps the metadata; the object
    -- that is read has the kind and name that were asked for; and the hash of its name is not that of the
    -- other name of an owner of a stored report.
    pub reconcile_resource-settles :
        (kind : String) (key : ObjectKey) (s s' : S) (out : Outcome)
        → is_cluster_scoped_kind kind ≡ false
        → ((obj : Object)
            → object_from_object_ref
                (r.server.base.cluster s)
                (object_ref_from_kind_and_object_key kind key)
              ≡ ok obj
            → ref_of obj ≡ object_ref_from_kind_and_object_key kind key)
        → (all : AllReportsOf r.kit (stored s)) → NoCollision r.kit (stored s) all key.name
        → (reports : List ConfigAuditReport)
        → r.server.reports.list
            (object_ref_to_labels r.kit.valid_label r.kit.hashing
              (object_ref_from_kind_and_object_key kind key))
            (some key.namespace)
            s'
          ≡ ok reports
        → reconcile_resource r kind key s ≡ (ok out, s')
        → r.server.base.cluster s' ≡ r.server.base.cluster s
        → policies r s' ≡ policies r s
        → AllReportsOf r.kit (stored s') × (reconcile_resource r kind key s' ≡ (ok out, s'))
    unfolding object_ref_from_kind_and_object_key builder_of
    reconcile_resource-settles kind key s s' out namespaced named all apart reports answered h
          same_cluster same_policies =
        elim (reconcile_resource_cases r s kind key) [
          | inl u ↦
              let same = same_state_after s s' (reconcile_resource r kind key s) out u h in
              (
                subst (λ x. AllReportsOf r.kit (stored x)) (sym same) all,
                subst (λ x. reconcile_resource r kind key x ≡ (ok out, s')) (sym same) h,
              )
          | inr audits ↦
              let ref = object_ref_from_kind_and_object_key kind key in
              let (needs, ran) = audits.written in
              let b = builder_of r s kind ref audits.obj needs in
              let (wrote, ended) = writing_ok b s s' out (sym ran ∙ h) in
              let owner = named audits.obj audits.found in
              let scope = ap is_cluster_scoped_kind (ap (λ x. x.kind) owner) ∙ namespaced in
              let current =
                subst (λ x. has_report r x needs.spec_hash needs.config_hash s' ≡ ok true) owner
                  (write_audit-has_report b s s' scope wrote all
                    (subst (NoCollision r.kit (stored s) all) (sym (ap (λ x. x.name) owner)) apart)
                    reports
                    (subst
                      (λ x.
                        r.server.reports.list
                          (object_ref_to_labels r.kit.valid_label r.kit.hashing x)
                          (some x.namespace) s'
                        ≡ ok reports)
                      (sym owner) answered)) in
              (
                write_audit-AllReportsOf b s s' scope wrote all,
                current_run kind key s s' audits same_cluster same_policies current
                    ∙ ap (λ x. (ok x, s')) (sym ended),
              )
        ]
