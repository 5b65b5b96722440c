-- ===== src/Kube/Resolver/Related.antt =====
-- RelatedReplicaSetName against ReportOwner: two ways from a Deployment to its ReplicaSet.
use starboard.Prelude.{String, ◌≡◌, refl, List, [], ◌∷◌, arith, ok}
use starboard.Kube.Kind
use starboard.Kube.Object.{Content, Object}
use starboard.Kube.Resolver.{
  Cluster, ensure_gvk, first_of_revision, replica_set_by_deployment, replica_set_by_deployment_ref,
  object_from_object_ref, report_owner, related_replica_set_name,
}

module _ (c : Cluster) where
  first_of_revision-type_kind :
      (d : Content) (kind : String) (items : List Content)
      → first_of_revision c (record d { type_kind = kind }) items ≡ first_of_revision c d items
  unfolding first_of_revision
  first_of_revision-type_kind d kind [] = refl
  first_of_revision-type_kind d kind (rs ∷ items) =
      ground (arith, first_of_revision-type_kind d kind items)

  replica_set_by_deployment-type_kind :
      (d : Content) (kind : String)
      → replica_set_by_deployment c (record d { type_kind = kind }) ≡ replica_set_by_deployment c d
  unfolding replica_set_by_deployment
  replica_set_by_deployment-type_kind d kind = simp first_of_revision-type_kind

  -- RelatedReplicaSetName of a Deployment is the name of the ReplicaSet that ReportOwner finds for it.
  pub related_replica_set_name-report_owner :
      (name namespace : String) (obj r : Object)
      → object_from_object_ref c
          (record { kind = Kind.deployment; name = name; namespace = namespace })
        ≡ ok obj
      → report_owner c obj ≡ ok r
      → related_replica_set_name c
          (record { kind = Kind.deployment; name = name; namespace = namespace })
        ≡ ok r.meta.name
  unfolding object_from_object_ref report_owner related_replica_set_name ensure_gvk
      replica_set_by_deployment_ref
  related_replica_set_name-report_owner name namespace obj r found owned =
      grind (arith, replica_set_by_deployment-type_kind)
