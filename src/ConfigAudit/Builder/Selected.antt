-- ===== src/ConfigAudit/Builder/Selected.antt =====
-- The labels and names of reports of configuration audits, as the lists of FindReportByOwner see them.
use starboard.Prelude.{
  String, Bool, to_lower, dashed, if◌then◌else◌, false≢true, true, false, ◌&&◌, ◌≡◌, ◌∙◌, sym, ap,
  refl, lookup, insert, value, eq_iff, eq_refl, ok, arith, wrap_ok, none, [], ◌==◌, Bool-cases, inl,
  inr, Option, some, some_injective, subst,
}
use starboard.Constants.{
  label_plugin_config_hash, label_resource_spec_hash, label_resource_name, label_resource_name_hash,
}
use starboard.Kube.Object.{ObjectMeta, Object, ObjectRef, ObjectKey}
use starboard.Kube.Reference.{object_ref_to_labels, object_to_object_meta}
use starboard.Kube.Reference.RoundTrip.{ref_of}
use starboard.Kube.Reference.Selection.{selects, selects-object_to_object_meta, selects_only_owner}
use starboard.Kube.Reference.Others.{other_labels, same_place}
use starboard.Kube.Server.{key_of}
use starboard.ConfigAudit.{ConfigAuditReport}
use starboard.ConfigAudit.Store.Writes.{Stored, same_key, merged, in_list, put}
use starboard.ConfigAudit.Builder.{
  AuditKit, AuditReportBuilder, audit_report_name, hash_labels, get_report, report_in, encode_owner,
  insert_unless_blank,
}

-- controllerutil.SetControllerReference changes nothing of the metadata but the owner references.
pub record KeepsMeta (kit : AuditKit) : Type 0 where
  pub kept :
      (obj : Object) (before after : ConfigAuditReport)
      → kit.set_controller_reference obj before ≡ ok after
      → (after.meta.name ≡ before.meta.name)
        × (after.meta.namespace ≡ before.meta.namespace)
        × (after.meta.labels ≡ before.meta.labels)

-- A report under the name that is made for an owner, with the owner encoded into its labels.
pub record IsReportOf (kit : AuditKit) (rep : ConfigAuditReport) : Type 0 where
  pub owner : Object
  pub before : ObjectMeta
  pub named : rep.meta.name ≡ audit_report_name kit owner
  pub placed : rep.meta.namespace ≡ owner.meta.namespace
  pub labelled :
      rep.meta.labels ≡ (object_to_object_meta kit.valid_label kit.hashing owner before).labels
  pub no_name : lookup label_resource_name before.labels ≡ none
  pub no_hash : lookup label_resource_name_hash before.labels ≡ none

hash_labels_lem :
    (kit : AuditKit) (b : AuditReportBuilder)
    → (lookup label_resource_name (hash_labels kit b) ≡ none)
      × (lookup label_resource_name_hash (hash_labels kit b) ≡ none)
      × (value label_resource_spec_hash (hash_labels kit b) ≡ b.resource_spec_hash)
      × (value label_plugin_config_hash (hash_labels kit b) ≡ b.plugin_config_hash)
unfolding hash_labels insert_unless_blank lookup insert
hash_labels_lem kit b =
    ground (arith, eq_iff b.resource_spec_hash "", eq_iff b.plugin_config_hash "")

module _ (kit : AuditKit) (keeps : KeepsMeta kit) (b : AuditReportBuilder) (rep : ConfigAuditReport)
    (built : get_report kit b ≡ ok rep) where
  -- The metadata before the owner is encoded into it.
  report_meta : ObjectMeta
  report_meta = record {
    name = audit_report_name kit b.controller;
    namespace = b.controller.meta.namespace;
    labels = hash_labels kit b;
    annotations = [];
    controller = none;
    deleted = false;
  }

  pub get_report-placed :
      (rep.meta.name ≡ audit_report_name kit b.controller)
      × (rep.meta.namespace ≡ b.controller.meta.namespace)
  unfolding get_report report_in encode_owner report_meta
  get_report-placed =
      let (n, ns, l) = keeps.kept b.controller _ rep (wrap_ok _ _ rep built) in
      let (same_name, same_namespace) =
        same_place kit.valid_label kit.hashing b.controller report_meta in
      (n ∙ same_name, ns ∙ same_namespace)

  pub get_report-IsReportOf : IsReportOf kit rep
  unfolding get_report report_in encode_owner report_meta
  get_report-IsReportOf =
      let (n, ns, l) = keeps.kept b.controller _ rep (wrap_ok _ _ rep built) in
      let (no_name, no_hash, _, _) = hash_labels_lem kit b in
      record {
        owner = b.controller;
        before = report_meta;
        named = get_report-placed.0;
        placed = get_report-placed.1;
        labelled = l;
        no_name = no_name;
        no_hash = no_hash;
      }

  -- It is listed by the labels of its owner, and tells the two hashes.
  pub get_report-in_list :
      (in_list
          (object_ref_to_labels kit.valid_label kit.hashing (ref_of b.controller))
          b.controller.meta.namespace
          rep
        ≡ true)
      × (value label_resource_spec_hash rep.meta.labels ≡ b.resource_spec_hash)
      × (value label_plugin_config_hash rep.meta.labels ≡ b.plugin_config_hash)
  unfolding get_report report_in encode_owner report_meta
  get_report-in_list =
      let (n, ns, l) = keeps.kept b.controller _ rep (wrap_ok _ _ rep built) in
      let (_, _, spec, config) = hash_labels_lem kit b in
      (
        rw (get_report-placed.1, eq_refl b.controller.meta.namespace, l)
            (selects-object_to_object_meta kit.valid_label kit.hashing b.controller report_meta),
        rw (l, other_labels) spec,
        rw (l, other_labels) config,
      )

and_right : (a b : Bool) → (a && b) ≡ true → b ≡ true
and_right true b h = h
and_right false b h = absurd (false≢true h)

key_at : String → String → ObjectKey
key_at name namespace = record { name = name; namespace = namespace }

module _ (kit : AuditKit) where
  -- Every stored report was made for an owner, under the name that goes with it.
  abbrev pub AllReportsOf : Stored → Type 0
  AllReportsOf stored =
      (key : ObjectKey) (r : ConfigAuditReport) → stored key ≡ some r → IsReportOf kit r

  -- The name of the owner and those of the owners of the stored reports have hashes of their own.
  abbrev pub NoCollision : (stored : Stored) → AllReportsOf stored → String → Type 0
  NoCollision stored all name =
      (key : ObjectKey) (r : ConfigAuditReport) (there : stored key ≡ some r)
      → kit.hashing.hash_name name ≡ kit.hashing.hash_name (all key r there).owner.meta.name
      → name ≡ (all key r there).owner.meta.name

  -- The invariant of the store: it stays so when a report that was made for an owner is written.
  pub put-AllReportsOf :
      (report : ConfigAuditReport) (stored after : Stored)
      → ((key : ObjectKey) → after key ≡ put report stored key)
      → ((key : ObjectKey) (r : ConfigAuditReport) → stored key ≡ some r → key_of r.meta ≡ key)
      → IsReportOf kit report
      → AllReportsOf stored
      → AllReportsOf after
  put-AllReportsOf report stored after same named made all key r there =
      let now = same key in
      elim (Bool-cases (same_key (key_of report.meta) key)) [
        | inr other ↦ all key r (sym (rw other at now) ∙ there)
        | inl here ↦
            subst (IsReportOf kit) (some_injective (sym (rw here at now) ∙ there))
              (merged-IsReportOf (stored (key_of report.meta)) refl)
      ]
    where
      merged-IsReportOf :
          (o : Option ConfigAuditReport)
          → stored (key_of report.meta) ≡ o
          → IsReportOf kit (merged report o)
      merged-IsReportOf none e = made
      merged-IsReportOf (some existing) e =
          let key = named (key_of report.meta) existing e in
          record {
            owner = made.owner;
            before = made.before;
            named = ap (λ k. k.name) key ∙ made.named;
            placed = ap (λ k. k.namespace) key ∙ made.placed;
            labelled = made.labelled;
            no_name = made.no_name;
            no_hash = made.no_hash;
          }

  name_for : ObjectRef → String
  name_for ref =
      let kind = to_lower ref.kind in
      let name = dashed kind ref.name in
      if kit.valid_label name then name else dashed kind (kit.hashing.hash_name ref.name)

  -- The name depends on the reference to the owner only.
  audit_report_name-ref_of :
      (a b : Object) → ref_of a ≡ ref_of b → audit_report_name kit a ≡ audit_report_name kit b
  unfolding audit_report_name name_for
  audit_report_name-ref_of a b e = ap name_for e

  -- With that invariant the labels of an owner list no report but the owner's own.
  pub AllReportsOf-OnlyOne :
      (owner : Object) (report : ConfigAuditReport) (stored : Stored) (all : AllReportsOf stored)
      → report.meta.name ≡ audit_report_name kit owner
      → report.meta.namespace ≡ owner.meta.namespace
      → NoCollision stored all owner.meta.name
      → (r : ConfigAuditReport) → stored (key_of r.meta) ≡ some r
      → in_list
          (object_ref_to_labels kit.valid_label kit.hashing (ref_of owner))
          owner.meta.namespace
          r
        ≡ true
      → key_of r.meta ≡ key_of report.meta
  unfolding key_at
  AllReportsOf-OnlyOne owner report stored all named placed apart r there listed =
      let one = all (key_of r.meta) r there in
      let selected =
        and_right (r.meta.namespace == owner.meta.namespace)
          (selects (object_ref_to_labels kit.valid_label kit.hashing (ref_of owner)) r.meta.labels)
          listed in
      let same =
        selects_only_owner kit.valid_label kit.hashing (ref_of owner) one.owner one.before
          one.no_name one.no_hash (apart (key_of r.meta) r there) (rw one.labelled at selected) in
      let name = one.named ∙ sym (audit_report_name-ref_of owner one.owner same) ∙ sym named in
      let namespace = one.placed ∙ sym (ap (λ ref. ref.namespace) same) ∙ sym placed in
      ap (λ n. key_at n r.meta.namespace) name ∙ ap (key_at report.meta.name) namespace
