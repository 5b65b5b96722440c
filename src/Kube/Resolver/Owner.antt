-- ===== src/Kube/Resolver/Owner.antt =====
-- Which objects own reports: ReportOwner follows controllers up, and stops where it has arrived.
use starboard.Prelude.{
  String, ◌≡◌, refl, ap, ◌∙◌, ◌⊎◌, inl, inr, List, [], ◌∷◌, Option, none, some, arith, Result, ok,
  err, ◌==◌, ◌>>=◌, bind_ok, Bool-cases,
}
use starboard.Kube.Kind
use starboard.Kube.Kind.{OwnerReference}
use starboard.Kube.Object.{GoType, Content, Object}
use starboard.Kube.Resolver.{
  Cluster, ensure_gvk, assert_type, first_of_revision, replica_set_by_deployment, controlled_by,
  replica_set_by_pod, cron_job_by_job, job_by_pod, owner_of_job, owner_of_pod, owner_by_type,
  report_owner,
}

ok_inj : (a b : Object) → ok a ≡ ok b → b ≡ a
ok_inj a b h = cc

module _ (c : Cluster) where
  pub ensure_gvk_keeps :
      (obj r : Object)
      → ensure_gvk c obj ≡ ok r
      → (r.go_type ≡ obj.go_type) × (r.meta ≡ obj.meta) × (r.selector ≡ obj.selector)
  unfolding ensure_gvk
  ensure_gvk_keeps obj r h = ground arith

  first_of_revision_type :
      (d : Content) (items : List Content) (r : Object)
      → first_of_revision c d items ≡ ok r
      → r.go_type ≡ GoType.replica_set
  unfolding first_of_revision
  first_of_revision_type d [] r h = cc
  first_of_revision_type d (rs ∷ items) r h = ground (
    arith,
    first_of_revision_type d items r,
    ensure_gvk_keeps (record { go_type = GoType.replica_set; content = rs }) r,
  )

  replica_set_by_deployment_type :
      (d : Content) (r : Object)
      → replica_set_by_deployment c d ≡ ok r
      → r.go_type ≡ GoType.replica_set
  unfolding replica_set_by_deployment
  replica_set_by_deployment_type d r h = grind (arith, first_of_revision_type)

  controlled_by_type :
      (kind : String) (t : GoType) (d : Content) (o : Option OwnerReference) (r : Object)
      → controlled_by c kind t d o ≡ ok r
      → r.go_type ≡ t
  unfolding controlled_by
  controlled_by_type kind t d none r h = cc
  controlled_by_type kind t d (some o) r h = ground arith

  replica_set_by_pod_type :
      (pod : Content) (r : Object)
      → replica_set_by_pod c pod ≡ ok r
      → r.go_type ≡ GoType.replica_set
  unfolding replica_set_by_pod
  replica_set_by_pod_type pod r h = grind (arith, controlled_by_type, ensure_gvk_keeps)

  assert_type_ok : (m : Result Object) (r : Object) → assert_type m ≡ ok r → m ≡ ok r
  unfolding assert_type
  assert_type_ok (ok o) r h = h
  assert_type_ok (err e) r h = cc

  cron_job_by_job_type :
      (job : Content) (r : Object) → cron_job_by_job c job ≡ ok r → r.go_type ≡ GoType.cron_job
  unfolding cron_job_by_job
  cron_job_by_job_type job r h = grind (arith, controlled_by_type, ensure_gvk_keeps, assert_type_ok)

  job_by_pod_type : (pod : Content) (r : Object) → job_by_pod c pod ≡ ok r → r.go_type ≡ GoType.job
  unfolding job_by_pod
  job_by_pod_type pod r h = grind (arith, controlled_by_type, ensure_gvk_keeps, assert_type_ok)

  owner_of_replica_set : (r : Object) → r.go_type ≡ GoType.replica_set → report_owner c r ≡ ok r
  unfolding report_owner
  owner_of_replica_set r t = rw (t, report_owner) refl

  owner_of_cron_job : (r : Object) → r.go_type ≡ GoType.cron_job → report_owner c r ≡ ok r
  unfolding report_owner
  owner_of_cron_job r t = rw (t, report_owner) refl

  owner_of_job_cases :
      (obj r : Object) (o : Option OwnerReference)
      → owner_of_job c obj o ≡ ok r
      → (r ≡ obj) ⊎ (r.go_type ≡ GoType.cron_job)
  unfolding owner_of_job
  owner_of_job_cases obj r none h = inl (ground arith)
  owner_of_job_cases obj r (some o) h = ground (arith, cron_job_by_job_type obj.content r)

  -- A type switch on an object whose type is known.
  owner_at_type :
      (obj : Object) (t : GoType) → obj.go_type ≡ t → report_owner c obj ≡ owner_by_type c t obj
  unfolding report_owner
  owner_at_type obj t e = ap (λ u. owner_by_type c u obj) e

  -- An object that is its own owner, found under another name.
  settled_as : (obj r : Object) → r ≡ obj → report_owner c obj ≡ ok r → report_owner c r ≡ ok r
  settled_as obj r e h = cc

  owner_of_job_settles :
      (obj r : Object)
      → obj.go_type ≡ GoType.job
      → owner_of_job c obj obj.meta.controller ≡ ok r
      → report_owner c r ≡ ok r
  unfolding owner_by_type
  owner_of_job_settles obj r t h = elim (owner_of_job_cases obj r obj.meta.controller h) [
    | inl e ↦ settled_as obj r e (owner_at_type obj GoType.job t ∙ h)
    | inr cj ↦ owner_of_cron_job r cj
  ]

  owner_of_managing_job_settles :
      (obj r : Object)
      → (job_by_pod c obj.content >>= λ job. owner_of_job c job job.meta.controller) ≡ ok r
      → report_owner c r ≡ ok r
  owner_of_managing_job_settles obj r h =
      let (job, got, owned) =
        bind_ok (job_by_pod c obj.content) (λ job. owner_of_job c job job.meta.controller) r h in
      owner_of_job_settles job r (job_by_pod_type obj.content job got) owned

  owner_of_pod_cases :
      (obj r : Object) (o : Option OwnerReference)
      → owner_of_pod c obj o ≡ ok r
      → (r ≡ obj) ⊎ (report_owner c r ≡ ok r)
  unfolding owner_of_pod
  owner_of_pod_cases obj r none h = inl (ground arith)
  owner_of_pod_cases obj r (some o) h = elim (Bool-cases (o.kind == Kind.replica_set)) [
    | inl rs ↦ inr (owner_of_replica_set r (replica_set_by_pod_type obj.content r (rw rs at h)))
    | inr other ↦ elim (Bool-cases (o.kind == Kind.job)) [
      | inl job ↦ inr (owner_of_managing_job_settles obj r (rw (other, job) at h))
      | inr neither ↦ inl (ok_inj obj r (rw (other, neither) at h))
    ]
  ]

  -- Whoever ReportOwner names as the owner of reports is its own owner: resolving an owner again changes
  -- nothing.
  pub report_owner_idem : (obj r : Object) → report_owner c obj ≡ ok r → report_owner c r ≡ ok r
  unfolding report_owner
  report_owner_idem obj r h = by_type obj.go_type refl h
    where
      by_type :
          (t : GoType) → obj.go_type ≡ t → owner_by_type c t obj ≡ ok r → report_owner c r ≡ ok r
      by_type GoType.deployment e h =
          owner_of_replica_set r (replica_set_by_deployment_type obj.content r h)
      by_type GoType.job e h = owner_of_job_settles obj r e h
      by_type GoType.pod e h = elim (owner_of_pod_cases obj r obj.meta.controller h) [
        | inl same ↦ settled_as obj r same (owner_at_type obj GoType.pod e ∙ h)
        | inr settled ↦ settled
      ]
      by_type t e h = settled_as obj r (ok_inj obj r h) (owner_at_type obj t e ∙ h)
