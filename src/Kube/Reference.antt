-- ===== src/Kube/Reference.antt =====
-- How a report or a scan job names its owner: ObjectRefToLabels, ObjectToObjectMeta and
-- ObjectRefFromObjectMeta of pkg/kube/object.go.
pub mod RoundTrip
pub mod Selection
pub mod Others
use starboard.Prelude.{
  String, Bool, [], ◌∷◌, if◌then◌else◌, lookup, insert, value, message, Result, ok, ◌>>=◌, or_error,
  or_else, ◌≡◌, arith,
}
use starboard.Constants.{
  label_resource_kind, label_resource_name, label_resource_name_hash, label_resource_namespace,
}
use starboard.Kube.Object.{Labels, ObjectMeta, Object, ObjectRef, Hashing}

-- `valid_label` is validation.IsValidLabelValue with no complaint.
module _ (valid_label : String → Bool) (h : Hashing) where
  unfoldable pub object_ref_to_labels : ObjectRef → Labels
  object_ref_to_labels obj =
      let labels =
        (label_resource_kind, obj.kind) ∷ (label_resource_namespace, obj.namespace) ∷ [] in
      if valid_label obj.name
      then insert label_resource_name obj.name labels
      else insert label_resource_name_hash (h.hash_name obj.name) labels

  pub object_ref_to_labels_lem :
      (obj : ObjectRef)
      → object_ref_to_labels obj
        ≡ (label_resource_kind, obj.kind)
          ∷ (label_resource_namespace, obj.namespace)
          ∷ (if valid_label obj.name
              then (label_resource_name, obj.name)
              else (label_resource_name_hash, h.hash_name obj.name))
          ∷ []
  unfolding object_ref_to_labels insert
  object_ref_to_labels_lem obj = ground arith

  unfoldable pub object_to_object_meta : Object → ObjectMeta → ObjectMeta
  object_to_object_meta obj meta =
      let labels =
        insert label_resource_namespace obj.meta.namespace
          (insert label_resource_kind obj.type_kind meta.labels) in
      if valid_label obj.meta.name
      then record meta { labels = insert label_resource_name obj.meta.name labels }
      else record meta {
        labels = insert label_resource_name_hash (h.hash_name obj.meta.name) labels;
        annotations = insert label_resource_name obj.meta.name meta.annotations;
      }

unfoldable pub object_ref_from_object_meta : ObjectMeta → Result ObjectRef
object_ref_from_object_meta meta = do
  kind ←
      or_error (lookup label_resource_kind meta.labels)
        (message "required label does not exist: starboard.resource.kind")
  name ←
      or_error
        (or_else (lookup label_resource_name meta.labels)
          (lookup label_resource_name meta.annotations))
        (message "required label does not exist: starboard.resource.name")
  ok (record { kind = kind; name = name; namespace = value label_resource_namespace meta.labels })
