-- ===== src/Vulnerability/Controller/Events.antt =====
-- Which events reach the two reconcilers: SetupWithManager of the controller. The metadata of a
-- scan job is held against the predicates of both reconcilers.
use starboard.Prelude.{
  String, Bool, true, false, ◌&&◌, ◌||◌, ◌≡◌, List, ◌∷◌, eq_refl, not, ok, Bool-cases, inl, inr,
}
use starboard.Kube.Object.{ObjectMeta, PodSpec, get_pod_spec, get_container_images_from_pod_spec}
use starboard.Kube.Server.{ScanJob, Secret, JobConditionType}
use starboard.Operator.Config.{ConfigData, vulnerability_scan_jobs_in_same_namespace}
use starboard.Operator.Predicate.{
  in_namespace, managed_by_starboard_operator, is_being_terminated, is_vulnerability_report_scan,
  job_has_any_condition,
}
use starboard.Vulnerability.Builder.{Toolkit, ScanJobBuilder, build_scan_job}
use starboard.Vulnerability.Builder.Jobs.{scan_labels}

-- The predicates on workloads; `allows` is the one of the install mode, on the namespace.
unfoldable pub workload_events : (String → Bool) → ObjectMeta → Bool
workload_events allows obj =
    not (managed_by_starboard_operator obj)
    && (not (is_being_terminated obj) && allows obj.namespace)

-- The predicates on jobs, with the operator's namespace.
unfoldable pub job_events : String → ConfigData → ScanJob → Bool
job_events namespace settings job =
    (vulnerability_scan_jobs_in_same_namespace settings || in_namespace namespace job.meta)
    && (managed_by_starboard_operator job.meta
        && (is_vulnerability_report_scan job.meta && job_has_any_condition job))

module _ (kit : Toolkit) (b : ScanJobBuilder) (spec : PodSpec) (json : String) (job : ScanJob)
    (secrets : List Secret) (spec_got : get_pod_spec b.object ≡ ok spec)
    (encoded : kit.as_json (get_container_images_from_pod_spec spec) ≡ ok json)
    (built : build_scan_job kit b ≡ ok (job, secrets)) where
  -- A scan job that was built for a workload is passed to the reconciler of jobs as soon as it has a condition,
  -- wherever the settings put it, and never to the reconciler of workloads.
  pub events-build_scan_job :
      (condition : JobConditionType) (conditions : List JobConditionType) (allows : String → Bool)
      → (job_events b.plugin_context.namespace b.plugin_context.settings
            (record job { conditions = condition ∷ conditions })
          ≡ true)
        × (workload_events allows job.meta ≡ false)
  unfolding job_events workload_events in_namespace managed_by_starboard_operator
      is_vulnerability_report_scan job_has_any_condition
  events-build_scan_job condition conditions allows =
      let (managed, scanner, place) =
        scan_labels kit b spec json job secrets spec_got encoded built in
      elim (Bool-cases (vulnerability_scan_jobs_in_same_namespace b.plugin_context.settings)) [
        | inl same ↦ (simp (same, managed, scanner), simp managed)
        | inr other ↦ (simp (other, managed, scanner, place, eq_refl), simp managed)
      ]
