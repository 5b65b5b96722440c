-- ===== src/Tests/Kube.antt =====
-- Owners in the small cluster.
use starboard.Prelude.{
  insert, lookup, true, ◌≡◌, ◌≢◌, refl, ◌↔◌, inr, [], ◌∷◌, none, All, ok, err,
  replica_set_not_found,
}
use starboard.Kube.Kind
use starboard.Kube.Object.{ObjectMeta}
use starboard.Kube.Reference.{
  object_ref_to_labels, object_to_object_meta, object_ref_from_object_meta,
}
use starboard.Kube.Reference.RoundTrip.{ref_of, object_ref_from_object_meta-object_to_object_meta}
use starboard.Kube.Reference.Selection.{selects, selects-object_to_object_meta, selects_only_owner}
use starboard.Kube.Resolver.{
  object_from_object_ref, cron_job_by_job, ensure_gvk, assert_type, job_by_pod, report_owner,
  revision, replica_set_by_deployment, is_active_replica_set, related_replica_set_name,
}
use starboard.Kube.Resolver.Owner.{report_owner_idem}
use starboard.Kube.Resolver.Revision.{
  is_active-replica_set_by_deployment, replica_set_not_found_iff,
}
use starboard.Kube.Resolver.Related.{related_replica_set_name-report_owner}
use starboard.Tests.Data.{
  meta_of, web, long, shop, shop_old, shop_new, nightly, nightly_pod, valid_label, hashing, cluster,
  owned_by,
}

abbrev blank : ObjectMeta
blank = meta_of "job" [] [] none

round_trip_example :
    object_ref_from_object_meta (object_to_object_meta valid_label hashing long blank)
    ≡ ok (ref_of long)
unfolding object_ref_from_object_meta object_to_object_meta lookup
round_trip_example =
    object_ref_from_object_meta-object_to_object_meta valid_label hashing long blank (inr refl)

selects_example :
    selects
      (object_ref_to_labels valid_label hashing (ref_of long))
      (object_to_object_meta valid_label hashing long blank).labels
    ≡ true
unfolding selects object_ref_to_labels object_to_object_meta
selects_example = selects-object_to_object_meta valid_label hashing long blank

selects_only_owner_example : ref_of web ≡ ref_of web
unfolding selects object_ref_to_labels object_to_object_meta lookup insert
selects_only_owner_example =
    selects_only_owner valid_label hashing (ref_of web) web blank refl refl (λ e. refl) refl

report_owner_example : report_owner cluster nightly ≡ ok nightly
unfolding report_owner job_by_pod assert_type ensure_gvk cron_job_by_job
report_owner_example = report_owner_idem cluster nightly_pod nightly refl

is_active_example : is_active_replica_set cluster shop_new (owned_by "Deployment" "shop") ≡ ok true
unfolding replica_set_by_deployment is_active_replica_set lookup ensure_gvk
is_active_example =
    is_active-replica_set_by_deployment cluster shop.content shop_new
      (record { kind = "Deployment"; name = "shop" }) refl refl refl

replica_set_not_found_example :
    (replica_set_by_deployment cluster shop.content ≡ err replica_set_not_found)
    ↔ All (λ rs. revision shop.content ≢ revision rs) (shop_old.content ∷ shop_new.content ∷ [])
unfolding replica_set_by_deployment
replica_set_not_found_example =
    replica_set_not_found_iff cluster shop.content (shop_old.content ∷ shop_new.content ∷ [])
      Kind.replica_set refl refl

related_example :
    related_replica_set_name cluster
      (record { kind = Kind.deployment; name = "shop"; namespace = "prod" })
    ≡ ok "shop-2"
unfolding report_owner related_replica_set_name object_from_object_ref ensure_gvk
    replica_set_by_deployment lookup
related_example =
    related_replica_set_name-report_owner cluster "shop" "prod" shop shop_new refl refl
