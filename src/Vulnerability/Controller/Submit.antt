-- ===== src/Vulnerability/Controller/Submit.antt =====
-- submitScanJob: the secrets first, then the job, then the secrets once more with the job as their owner.
pub mod Adds
use starboard.Prelude.{
  String, Bool, true, false, List, [], ◌∷◌, Map, if◌then◌else◌, wrapped, wrap, is_already_exists,
}
use starboard.Prelude.Action.{Action, return, fail, reading, handle, ◌>>=◌}
use starboard.Kube.Object.{Object}
use starboard.Kube.Server.{ScanJob, Secret}
use starboard.Operator.Config.{get_scan_job_annotations, get_scan_job_pod_template_labels}
use starboard.Vulnerability.Builder.{Auth, ScanJobBuilder, build_scan_job}
use starboard.Vulnerability.Controller.{Controller, ignorable}

module _ {S : Type 0} (r : Controller S) where
  -- False where a secret is there already, which ends the whole method with success.
  create_secrets : List Secret → Action S Bool
  create_secrets [] = return true
  create_secrets (secret ∷ secrets) =
      handle (r.server.create_secret secret) (λ _. create_secrets secrets)
        (λ e.
          if is_already_exists e
          then return false
          else fail (wrapped "creating secret used by scan job failed" e))

  own_secrets : ScanJob → List Secret → Action S (Unit {0})
  own_secrets job [] = return tt
  own_secrets job (secret ∷ secrets) =
      handle
        (reading (λ s. wrap "setting owner reference" (r.server.set_owner_reference job secret)))
        (λ owned.
          handle (r.server.update_secret owned) (λ _. own_secrets job secrets)
            (λ e. fail (wrapped "setting owner reference of secret used by scan job failed" e)))
        fail

  create_job : ScanJob → List Secret → Action S (Unit {0})
  unfolding own_secrets
  create_job job secrets =
      handle (r.server.create_job job) (λ _. own_secrets job secrets)
        (λ e.
          if is_already_exists e then return tt else fail (wrapped "creating scan job failed" e))

  submit_built : ScanJob × List Secret → Action S (Unit {0})
  unfolding create_secrets create_job
  submit_built (job, secrets) = do
    go_on ← create_secrets secrets
    if go_on then create_job job secrets else return tt

  -- The chain of With methods.
  scan_job_builder : Object → Map Auth → List String → Map String → Map String → ScanJobBuilder
  scan_job_builder owner credentials tolerations annotations labels = record {
    plugin = r.plugin;
    plugin_context = r.plugin_context;
    timeout = r.config.scan_job_timeout;
    object = owner;
    credentials = credentials;
    tolerations = tolerations;
    annotations = annotations;
    pod_template_labels = labels;
  }

  unfoldable pub submit_scan_job : Object → Action S (Unit {0})
  unfolding submit_built scan_job_builder
  submit_scan_job owner = do
    credentials ← reading (r.credentials_by_workload owner)
    tolerations ← reading (λ s. wrap "getting scan job tolerations" r.tolerations)
    annotations ←
        reading (λ s. wrap "getting scan job annotations" (get_scan_job_annotations r.settings))
    labels ←
        reading (λ s.
          wrap "getting scan job template labels" (get_scan_job_pod_template_labels r.settings))
    handle
        (reading (λ s.
          build_scan_job r.kit (scan_job_builder owner credentials tolerations annotations labels)))
        submit_built
        (λ e. if ignorable e then return tt else fail (wrapped "constructing scan job" e))
