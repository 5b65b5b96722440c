-- ===== src/Kube/Reference/RoundTrip.antt =====
-- Reading back the reference that was written.
use starboard.Prelude.{
  String, Bool, true, ◌≡◌, ◌⊎◌, none, lookup, lookup-insert, ok, Bool-cases, inl, inr, sym, ◌∙◌,
  false≢true,
}
use starboard.Constants.{label_resource_name}
use starboard.Kube.Object.{ObjectMeta, Object, ObjectRef, Hashing}
use starboard.Kube.Reference.{object_to_object_meta, object_ref_from_object_meta}

-- The reference of an object, read off the object itself.
abbrev pub ref_of : Object → ObjectRef
ref_of obj = record { kind = obj.type_kind; name = obj.meta.name; namespace = obj.meta.namespace }

-- Whatever metadata an owner is encoded into, the owner is read back from it: also where its name is no
-- valid label value, if the metadata has no name label of another object.
pub object_ref_from_object_meta-object_to_object_meta :
    (valid_label : String → Bool) (h : Hashing) (obj : Object) (meta : ObjectMeta)
    → (valid_label obj.meta.name ≡ true) ⊎ (lookup label_resource_name meta.labels ≡ none)
    → object_ref_from_object_meta (object_to_object_meta valid_label h obj meta) ≡ ok (ref_of obj)
unfolding object_ref_from_object_meta object_to_object_meta
object_ref_from_object_meta-object_to_object_meta valid_label h obj meta clean =
    elim (Bool-cases (valid_label obj.meta.name)) [
      | inl valid ↦ rw valid (simp lookup-insert)
      | inr invalid ↦ elim clean [
        | inl valid ↦ absurd (false≢true (sym invalid ∙ valid))
        | inr free ↦ rw invalid (simp (lookup-insert, free))
      ]
    ]
