-- ===== src/Vulnerability/Builder/Reports.antt =====
-- What a report that was built tells of its owner and of the scan.
use starboard.Prelude.{
  String, true, false, ◌≡◌, ◌∙◌, lookup, insert, value, eq_iff, ok, arith, wrap_ok, some, none,
  dashed, dashed_assoc,
}
use starboard.Constants.{label_container_name, label_resource_spec_hash}
use starboard.Kube.Object.{ObjectMeta, Object}
use starboard.Kube.Reference.{object_ref_to_labels, object_to_object_meta}
use starboard.Kube.Reference.RoundTrip.{ref_of}
use starboard.Kube.Reference.Selection.{selects, selects-object_to_object_meta}
use starboard.Kube.Reference.Others.{other_labels, same_place}
use starboard.Report.{VulnerabilityReport}
use starboard.Vulnerability.Builder.{
  Toolkit, ReportBuilder, build_report, report_labels, report_name, report_annotations,
}

-- controllerutil.SetControllerReference changes nothing of the metadata but the owner references.
pub record KeepsMeta (kit : Toolkit) : Type 0 where
  pub kept :
      (obj : Object) (before after : VulnerabilityReport)
      → kit.set_controller_reference obj before ≡ ok after
      → (after.meta.name ≡ before.meta.name)
        × (after.meta.namespace ≡ before.meta.namespace)
        × (after.meta.labels ≡ before.meta.labels)
        × (after.meta.annotations ≡ before.meta.annotations)

report_labels_lem :
    (kit : Toolkit) (b : ReportBuilder)
    → (lookup label_container_name (report_labels kit b) ≡ some b.container)
      × (value label_resource_spec_hash (report_labels kit b) ≡ b.hash)
unfolding report_labels lookup insert
report_labels_lem kit b = ground (arith, eq_iff b.hash "")

module _ (kit : Toolkit) (keeps : KeepsMeta kit) (b : ReportBuilder) (rep : VulnerabilityReport)
    (built : build_report kit b ≡ ok rep) where
  -- The metadata before the owner is encoded into it.
  report_meta : ObjectMeta
  report_meta = record {
    name = report_name kit b.controller b.container;
    namespace = b.controller.meta.namespace;
    labels = report_labels kit b;
    annotations = report_annotations kit b.report_ttl;
    controller = none;
    deleted = false;
  }

  built_meta :
      (rep.meta.labels
        ≡ (object_to_object_meta kit.valid_label kit.hashing b.controller report_meta).labels)
      × (rep.meta.namespace ≡ b.controller.meta.namespace)
  unfolding build_report report_meta
  built_meta =
      let set = wrap_ok _ _ rep built in
      let (n, ns, l, a) = keeps.kept b.controller _ rep set in
      (l, ns ∙ (same_place kit.valid_label kit.hashing b.controller report_meta).1)

  -- A report that was built for a container of an owner is selected by the owner's labels, lies in the
  -- owner's namespace, and tells the container and, if there is one, the hash of the pod spec.
  pub build_report_labels :
      (selects
          (object_ref_to_labels kit.valid_label kit.hashing (ref_of b.controller))
          rep.meta.labels
        ≡ true)
      × (rep.meta.namespace ≡ (ref_of b.controller).namespace)
      × (lookup label_container_name rep.meta.labels ≡ some b.container)
      × (value label_resource_spec_hash rep.meta.labels ≡ b.hash)
  unfolding report_meta
  build_report_labels = (
    rw built_meta.0
        (selects-object_to_object_meta kit.valid_label kit.hashing b.controller report_meta),
    built_meta.1,
    rw (built_meta.0, other_labels) (report_labels_lem kit b).0,
    rw (built_meta.0, other_labels) (report_labels_lem kit b).1,
  )

-- The object under another name.
abbrev renamed : Object → String → Object
renamed obj name = record obj {
  content = record obj.content { meta = record obj.meta { name = name } };
}

-- A dash in a workload's name or in a container's can be moved between the two: the reports of container c
-- of a workload a-b and of container b-c of a workload a of the same kind have one name.
report_name_ambiguous :
    (kit : Toolkit) (obj : Object) (a b c : String)
    → report_name kit (renamed obj (dashed a b)) c ≡ report_name kit (renamed obj a) (dashed b c)
unfolding report_name
report_name_ambiguous kit obj a b c = simp dashed_assoc
