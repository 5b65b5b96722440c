-- ===== src/Kube/Reference/Others.antt =====
-- Encoding an owner leaves the other labels and annotations alone.
use starboard.Prelude.{
  String, Bool, false, ◌||◌, ◌≡◌, refl, lookup, lookup-insert, ◌==◌, arith, Bool-cases, inl, inr,
}
use starboard.Constants.{
  label_resource_kind, label_resource_name, label_resource_name_hash, label_resource_namespace,
}
use starboard.Kube.Object.{ObjectMeta, Object, Hashing}
use starboard.Kube.Reference.{object_to_object_meta}

-- Is this one of the keys that tell the owner?
abbrev pub is_resource_label : String → Bool
is_resource_label k =
    label_resource_kind == k
    || label_resource_name == k
    || label_resource_name_hash == k
    || label_resource_namespace == k

module _ (valid_label : String → Bool) (h : Hashing) (obj : Object) (meta : ObjectMeta) where
  pub other_labels :
      (k : String)
      → is_resource_label k ≡ false
      → lookup k (object_to_object_meta valid_label h obj meta).labels ≡ lookup k meta.labels
  unfolding object_to_object_meta
  other_labels k other = elim (Bool-cases (valid_label obj.meta.name)) [
    | inl v ↦ rw v (simp lookup-insert (ground arith))
    | inr v ↦ rw v (simp lookup-insert (ground arith))
  ]

  pub other_annotations :
      (k : String)
      → is_resource_label k ≡ false
      → lookup k (object_to_object_meta valid_label h obj meta).annotations
        ≡ lookup k meta.annotations
  unfolding object_to_object_meta
  other_annotations k other = elim (Bool-cases (valid_label obj.meta.name)) [
    | inl v ↦ rw v refl
    | inr v ↦ rw v (simp lookup-insert (ground arith))
  ]

  pub same_place :
      ((object_to_object_meta valid_label h obj meta).name ≡ meta.name)
      × ((object_to_object_meta valid_label h obj meta).namespace ≡ meta.namespace)
  unfolding object_to_object_meta
  same_place = ground arith
