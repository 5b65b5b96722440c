-- ===== src/Kube/Reference/Selection.antt =====
-- Selecting the reports and jobs of an owner by the labels of its reference.
use starboard.Prelude.{
  String, Bool, true, false, ◌&&◌, ◌≡◌, Option, none, some, [], ◌∷◌, lookup, lookup-insert, ◌==◌,
  eq_iff, eq_refl, arith, Bool-cases, inl, inr,
}
use starboard.Constants.{label_resource_name, label_resource_name_hash}
use starboard.Kube.Object.{Labels, ObjectMeta, Object, ObjectRef, Hashing}
use starboard.Kube.Reference.{object_ref_to_labels, object_ref_to_labels_lem, object_to_object_meta}
use starboard.Kube.Reference.RoundTrip.{ref_of}

abbrev same_value : String → Option String → Bool
same_value v none = false
same_value v (some w) = v == w

-- client.MatchingLabels: every label of the selector is set to its value.
unfoldable pub selects : Labels → Labels → Bool
selects [] labels = true
selects ((k, v) ∷ selector) labels = same_value v (lookup k labels) && selects selector labels

-- An owner's selector finds whatever metadata the owner was encoded into.
pub selects-object_to_object_meta :
    (valid_label : String → Bool) (h : Hashing) (obj : Object) (meta : ObjectMeta)
    → selects
        (object_ref_to_labels valid_label h (ref_of obj))
        (object_to_object_meta valid_label h obj meta).labels
      ≡ true
unfolding selects object_to_object_meta
selects-object_to_object_meta valid_label h obj meta =
    elim (Bool-cases (valid_label obj.meta.name)) [
      | inl valid ↦ rw valid (simp (object_ref_to_labels_lem, valid, lookup-insert, eq_refl))
      | inr invalid ↦ rw invalid (simp (object_ref_to_labels_lem, invalid, lookup-insert, eq_refl))
    ]

ref_of_tests :
    (r s : ObjectRef) (x : Bool)
    → (x ≡ true → r.name ≡ s.name)
    → ((r.kind == s.kind) && ((r.namespace == s.namespace) && (x && true))) ≡ true
    → r ≡ s
ref_of_tests r s x same_name h =
    ground (arith, eq_iff r.kind s.kind, eq_iff r.namespace s.namespace)

-- It finds no other owner's: metadata that carried no name before it was encoded is selected only by
-- the reference of its owner, unless the hashes of two different long names collide.
pub selects_only_owner :
    (valid_label : String → Bool) (h : Hashing) (r : ObjectRef) (obj : Object) (meta : ObjectMeta)
    → lookup label_resource_name meta.labels ≡ none
    → lookup label_resource_name_hash meta.labels ≡ none
    → (h.hash_name r.name ≡ h.hash_name obj.meta.name → r.name ≡ obj.meta.name)
    → selects
        (object_ref_to_labels valid_label h r)
        (object_to_object_meta valid_label h obj meta).labels
      ≡ true
    → r ≡ ref_of obj
unfolding selects object_to_object_meta
selects_only_owner valid_label h r obj meta no_name no_hash injective selected =
    elim (Bool-cases (valid_label r.name)) [
      | inl v ↦ elim (Bool-cases (valid_label obj.meta.name)) [
        | inl w ↦
            ref_of_tests r (ref_of obj) (r.name == obj.meta.name) (eq_iff _ _).0
              (simp (object_ref_to_labels_lem, v, w, lookup-insert) at selected)
        | inr w ↦
            ref_of_tests r (ref_of obj) false (λ e. cc)
              (simp (object_ref_to_labels_lem, v, w, lookup-insert, no_name) at selected)
      ]
      | inr v ↦ elim (Bool-cases (valid_label obj.meta.name)) [
        | inl w ↦
            ref_of_tests r (ref_of obj) false (λ e. cc)
              (simp (object_ref_to_labels_lem, v, w, lookup-insert, no_hash) at selected)
        | inr w ↦
            ref_of_tests r (ref_of obj) (h.hash_name r.name == h.hash_name obj.meta.name)
              (λ e. injective ((eq_iff _ _).0 e))
              (simp (object_ref_to_labels_lem, v, w, lookup-insert) at selected)
      ]
    ]
