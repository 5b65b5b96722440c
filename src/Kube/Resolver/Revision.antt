-- ===== src/Kube/Resolver/Revision.antt =====
-- The current revision of a Deployment, as the resolver finds it and as it tells whether it is active.
use starboard.Prelude.{
  String, ◌≡◌, refl, ◌≢◌, ◌↔◌, true, List, [], ◌∷◌, some, arith, ok, err, replica_set_not_found,
  eq_iff, All,
}
use starboard.Kube.Kind
use starboard.Kube.Kind.{OwnerReference}
use starboard.Kube.Object.{GoType, Content, Object}
use starboard.Kube.Resolver.{
  Cluster, ensure_gvk, revision, first_of_revision, replica_set_by_deployment,
  is_active_replica_set,
}
use starboard.Kube.Resolver.Owner.{ensure_gvk_keeps}

module _ (c : Cluster) where
  first_of_revision_lem :
      (d : Content) (items : List Content) (r : Object)
      → first_of_revision c d items ≡ ok r
      → revision r.content ≡ revision d
  unfolding first_of_revision
  first_of_revision_lem d [] r h = cc
  first_of_revision_lem d (rs ∷ items) r h = ground (
    arith,
    first_of_revision_lem d items r,
    eq_iff (revision d) (revision rs),
    ensure_gvk_keeps c (record { go_type = GoType.replica_set; content = rs }) r,
  )

  current_revision :
      (d : Content) (r : Object)
      → replica_set_by_deployment c d ≡ ok r
      → revision r.content ≡ revision d
  unfolding replica_set_by_deployment
  current_revision d r h = grind (arith, first_of_revision_lem)

  -- The ReplicaSet that the resolver picks for a Deployment is one that it also holds to be active, when the
  -- ReplicaSet's controller is that Deployment.
  pub is_active-replica_set_by_deployment :
      (d : Content) (r : Object) (o : OwnerReference)
      → replica_set_by_deployment c d ≡ ok r
      → o.kind ≡ Kind.deployment
      → c.get GoType.deployment (record { name = o.name; namespace = r.meta.namespace }) ≡ ok d
      → is_active_replica_set c r (some o) ≡ ok true
  unfolding is_active_replica_set
  is_active-replica_set_by_deployment d r o picked kind got = ground (
    arith,
    current_revision d r picked,
    eq_iff o.kind Kind.deployment,
    eq_iff (revision r.content) (revision d),
  )

  first_of_revision_not_found :
      (d : Content) (items : List Content) (kind : String)
      → c.gvk_kind GoType.replica_set ≡ ok kind
      → (first_of_revision c d items ≡ err replica_set_not_found)
        ↔ All (λ rs. revision d ≢ revision rs) items
  unfolding first_of_revision ensure_gvk
  first_of_revision_not_found d [] kind registered = ((λ e. tt), (λ a. refl))
  first_of_revision_not_found d (rs ∷ items) kind registered = ground (
    arith,
    first_of_revision_not_found d items kind registered,
    eq_iff (revision d) (revision rs),
  )

  -- With the ReplicaSets listed, ErrReplicaSetNotFound is returned exactly when none of them has the
  -- revision of the Deployment.
  pub replica_set_not_found_iff :
      (d : Content) (items : List Content) (kind : String)
      → c.list_replica_sets d.meta.namespace d.selector ≡ ok items
      → c.gvk_kind GoType.replica_set ≡ ok kind
      → (replica_set_by_deployment c d ≡ err replica_set_not_found)
        ↔ All (λ rs. revision d ≢ revision rs) items
  unfolding replica_set_by_deployment
  replica_set_not_found_iff d items kind listed registered =
      rw listed (first_of_revision_not_found d items kind registered)
