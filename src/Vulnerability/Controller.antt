-- ===== src/Vulnerability/Controller.antt =====
-- WorkloadController of pkg/vulnerabilityreport/controller.go: the reconciler of workloads, which schedules
-- scans, and that of scan jobs, which stores their results. The proofs stand in the modules below.
pub mod Submit
pub mod Workload
pub mod Jobs
pub mod Reported
pub mod Needs
pub mod Scheduling
pub mod Results
pub mod Events
pub mod Limited
use starboard.Prelude.{
  ℕ, String, Bool, true, false, ◌&&◌, List, [], ◌∷◌, ◌++◌, Option, none, some, Map, lookup, insert,
  value, keys, contains, ◌==◌, if◌then◌else◌, concat, Error, message, wrapped,
  replica_set_not_found, no_running_pods, unsupported_kind, pod_not_found, panicked, status, Result,
  ok, err, is_not_found, is_already_exists, wrap, or_error,
}
use starboard.Prelude
use starboard.Prelude.Int.{ℤ, pos}
use starboard.Prelude.Action.{Action, return, fail, reading, handle, ◌>>=◌, ◌>>◌}
use starboard.Constants.{
  label_container_name, label_resource_spec_hash, annotation_container_images,
}
use starboard.Kube.Kind
use starboard.Kube.Kind.{OwnerReference, is_built_in_workload}
use starboard.Kube.Object.{
  ObjectMeta, PodSpec, Object, ObjectRef, ObjectKey, object_ref_from_kind_and_object_key,
  get_pod_spec, get_container_images_from_pod_spec,
}
use starboard.Kube.Reference.{object_ref_from_object_meta}
use starboard.Kube.Resolver.{Cluster, object_from_object_ref, is_active_replica_set}
use starboard.Kube.Server.{
  JobConditionType, job_complete, job_failed, job_other, ScanJob, Secret, Server, key_of,
}
pub use starboard.Kube.Server.{Outcome, done}
use starboard.Operator.Config.{
  Config, ConfigData, get_scan_job_annotations, get_scan_job_pod_template_labels,
}
use starboard.Operator.Limit.{LimitChecker}
use starboard.Report.{VulnerabilityReport}
use starboard.Vulnerability.Builder.{
  Auth, PluginContext, Plugin, Toolkit, build_scan_job, build_report,
}
use starboard.Vulnerability.Store.{ReadWriter}

-- What the controller struct embeds. `tolerations` is GetScanJobTolerations, which decodes JSON;
-- `logs` and `terminated` are the methods of kube.LogsReader, the latter without the exit statuses, which
-- are only logged; `credentials_by_workload` is that of kube.SecretsReader.
pub record Controller (S : Type 0) : Type 0 where
  pub config : Config
  pub settings : ConfigData
  pub server : Server S
  pub limit_checker : LimitChecker S
  pub logs : ScanJob → String → S → Result String
  pub terminated : ScanJob → S → Result (Unit {0})
  pub credentials_by_workload : Object → S → Result (Map Auth)
  pub tolerations : Result (List String)
  pub plugin : Plugin
  pub plugin_context : PluginContext
  pub read_writer : ReadWriter S
  pub kit : Toolkit

-- errors.Is(err, ...) for the three errors after which a scan is not worth trying.
unfoldable pub ignorable : Error → Bool
ignorable replica_set_not_found = true
ignorable no_running_pods = true
ignorable unsupported_kind = true
ignorable (wrapped text e) = ignorable e
ignorable _ = false

-- errors.Is(err, podControlledByJobNotFoundErr)
unfoldable pub is_pod_controlled_by_job_not_found : Error → Bool
is_pod_controlled_by_job_not_found pod_not_found = true
is_pod_controlled_by_job_not_found (wrapped text e) = is_pod_controlled_by_job_not_found e
is_pod_controlled_by_job_not_found _ = false

-- The body of the loop of hasReports: a container's name joins the set if its report is of this pod spec.
add_reported : String → VulnerabilityReport → List String → List String
add_reported hash report actual = elim (lookup label_container_name report.meta.labels) [
  | none ↦ actual
  | some container ↦
      if hash == value label_resource_spec_hash report.meta.labels
      then container ∷ actual
      else actual
]

reported_containers : String → List VulnerabilityReport → List String → List String
unfolding add_reported
reported_containers hash [] actual = actual
reported_containers hash (report ∷ reports) actual =
    reported_containers hash reports (add_reported hash report actual)

all_in : List String → List String → Bool
all_in [] set = true
all_in (x ∷ xs) set = contains set x && all_in xs set

-- reflect.DeepEqual of two sets of names.
same_set : List String → List String → Bool
unfolding all_in
same_set xs ys = all_in xs ys && all_in ys xs

module _ {S : Type 0} (r : Controller S) where
  unfoldable pub has_reports : ObjectRef → String → Map String → S → Result Bool
  unfolding reported_containers same_set
  has_reports owner hash images s =
      Prelude.◌>>=◌ (r.read_writer.find_by_owner owner s)
        (λ list. ok (same_set (reported_containers hash list []) (keys images)))

  -- The job, if it is there and scans this very spec.
  unfoldable pub has_active_scan_job : ObjectRef → String → S → Result (Option ScanJob)
  has_active_scan_job owner hash s =
      let name = concat "scan-vulnerabilityreport-" (r.kit.hashing.hash_ref owner) in
      elim (r.server.get_job (record { name = name; namespace = r.config.namespace }) s) [
        | ok job ↦
            ok (if value label_resource_spec_hash job.meta.labels == hash then some job else none)
        | err e ↦ if is_not_found e then ok none else err (wrapped "getting job from cache" e)
      ]

  -- deleteJob
  unfoldable pub delete_job : ScanJob → Action S (Unit {0})
  delete_job job =
      handle (r.server.delete_job (key_of job.meta)) return
        (λ e. if is_not_found e then return tt else fail (wrapped "deleting job" e))
