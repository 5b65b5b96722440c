-- ===== src/Vulnerability/Builder/Jobs.antt =====
-- What a scan job carries from its workload to the controller that collects its results.
use starboard.Prelude.{
  String, false, ◌≡◌, refl, ap, ◌∙◌, List, [], ◌∷◌, map, lookup, ok, arith, some, none,
  if◌then◌else◌, All, concat, Bool-cases, Result-cases, ok_injective, subst, inl, inr,
}
use starboard.Constants.{
  label_resource_name, label_resource_spec_hash, annotation_container_images,
  label_k8s_app_managed_by, app_starboard, label_vulnerability_report_scanner,
}
use starboard.Kube.Object.{ObjectMeta, PodSpec, get_pod_spec, get_container_images_from_pod_spec}
use starboard.Kube.Reference.{object_to_object_meta, object_ref_from_object_meta}
use starboard.Kube.Reference.RoundTrip.{ref_of, object_ref_from_object_meta-object_to_object_meta}
use starboard.Kube.Reference.Others.{other_labels, other_annotations, same_place}
use starboard.Kube.Server.{ScanJob, Secret}
use starboard.Operator.Config.{vulnerability_scan_jobs_in_same_namespace}
use starboard.Vulnerability.Builder.{
  Toolkit, ScanJobBuilder, build_scan_job, new_scan_job, scan_job_labels, get_scan_job_name,
  in_namespace, update_scan_job_for_workload_namespace,
}

-- The namespace that scan jobs run in.
abbrev pub scan_namespace : ScanJobBuilder → String
scan_namespace b =
    if vulnerability_scan_jobs_in_same_namespace b.plugin_context.settings
    then b.object.meta.namespace
    else b.plugin_context.namespace

in_namespace-All :
    (namespace : String) (secrets : List Secret)
    → All (λ secret. secret.meta.namespace ≡ namespace) (map (in_namespace namespace) secrets)
unfolding in_namespace
in_namespace-All namespace [] = tt
in_namespace-All namespace (secret ∷ secrets) = (refl, in_namespace-All namespace secrets)

updated_secrets :
    (b : ScanJobBuilder) (spec : PodSpec) (job : ScanJob) (secrets : List Secret)
    → All
        (λ secret. secret.meta.namespace ≡ scan_namespace b)
        (update_scan_job_for_workload_namespace b spec
          (job, map (in_namespace b.plugin_context.namespace) secrets)).1
unfolding update_scan_job_for_workload_namespace
updated_secrets b spec job secrets =
    elim (Bool-cases (vulnerability_scan_jobs_in_same_namespace b.plugin_context.settings)) [
      | inl same ↦ rw same (in_namespace-All _ _)
      | inr other ↦ rw other (in_namespace-All _ _)
    ]

module _ (kit : Toolkit) (b : ScanJobBuilder) (spec : PodSpec) (json : String) where
  -- The metadata of the job before the owner is encoded into it.
  unlabelled : ObjectMeta
  unlabelled = record {
    name = get_scan_job_name kit b.object;
    namespace = scan_namespace b;
    labels = scan_job_labels kit b spec;
    annotations = (annotation_container_images, json) ∷ [];
    controller = none;
    deleted = false;
  }

  module _ (job : ScanJob) (secrets : List Secret) (spec_got : get_pod_spec b.object ≡ ok spec)
      (encoded : kit.as_json (get_container_images_from_pod_spec spec) ≡ ok json)
      (built : build_scan_job kit b ≡ ok (job, secrets)) where
    job_meta : job.meta ≡ object_to_object_meta kit.valid_label kit.hashing b.object unlabelled
    unfolding build_scan_job unlabelled
    job_meta = ground arith

    unlabelled_lem :
        (lookup label_resource_name unlabelled.labels ≡ none)
        × (lookup label_resource_spec_hash unlabelled.labels
            ≡ some (kit.hashing.hash_pod_spec spec))
        × (lookup annotation_container_images unlabelled.annotations ≡ some json)
    unfolding unlabelled scan_job_labels lookup
    unlabelled_lem = (refl, refl, refl)

    -- The labels by which events of the job are told from those of workloads, and where the job lies.
    pub scan_labels :
        (lookup label_k8s_app_managed_by job.meta.labels ≡ some app_starboard)
        × (lookup label_vulnerability_report_scanner job.meta.labels ≡ some b.plugin_context.name)
        × (job.meta.namespace ≡ scan_namespace b)
    unfolding unlabelled scan_job_labels lookup
    scan_labels = (
      rw (job_meta, other_labels) refl,
      rw (job_meta, other_labels) refl,
      ap (λ m. m.namespace) job_meta
          ∙ (same_place kit.valid_label kit.hashing b.object unlabelled).1,
    )

    secrets_namespace : All (λ secret. secret.meta.namespace ≡ scan_namespace b) secrets
    unfolding build_scan_job
    secrets_namespace =
        elim (Result-cases (b.plugin.get_scan_job_spec b.plugin_context b.object b.credentials)) [
          | inl (e, failed) ↦ absurd (cc (rw (spec_got, failed) at built))
          | inr (planned, got) ↦
              subst (All (λ secret. secret.meta.namespace ≡ scan_namespace b))
                (ap (λ p. p.1) (ok_injective (rw (spec_got, got, encoded) at built)))
                (updated_secrets b spec (new_scan_job kit b spec planned.0 json) planned.1)
        ]

    -- What is built for a workload names the workload, whatever its name; it holds the hash of the pod spec
    -- and the encoded images, by which its results are stored; it is called after the workload alone; and
    -- the job and all of its secrets lie in one namespace, the workload's own if the setting says so.
    pub build_scan_job_carries :
        (object_ref_from_object_meta job.meta ≡ ok (ref_of b.object))
        × (lookup label_resource_spec_hash job.meta.labels ≡ some (kit.hashing.hash_pod_spec spec))
        × (lookup annotation_container_images job.meta.annotations ≡ some json)
        × (job.meta.name
            ≡ concat "scan-vulnerabilityreport-" (kit.hashing.hash_ref (ref_of b.object)))
        × (job.meta.namespace ≡ scan_namespace b)
        × All (λ secret. secret.meta.namespace ≡ scan_namespace b) secrets
    unfolding get_scan_job_name unlabelled
    build_scan_job_carries =
        let (free, hash, images) = unlabelled_lem in
        (
          rw job_meta (
              object_ref_from_object_meta-object_to_object_meta kit.valid_label kit.hashing b.object
                unlabelled (inr free)),
          rw (job_meta, other_labels) hash,
          rw (job_meta, other_annotations) images,
          ap (λ m. m.name) job_meta
              ∙ (same_place kit.valid_label kit.hashing b.object unlabelled).0,
          ap (λ m. m.namespace) job_meta
              ∙ (same_place kit.valid_label kit.hashing b.object unlabelled).1,
          secrets_namespace,
        )
