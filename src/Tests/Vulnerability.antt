-- ===== src/Tests/Vulnerability.antt =====
-- Scans of a Pod, from the event to the stored reports.
use starboard.Prelude.Action.{handle}
use Kind.{is_built_in_workload}
use starboard.Operator.Config.{vulnerability_scan_jobs_in_same_namespace}
use starboard.Prelude.{
  false, is_not_found, String, true, ◌≡◌, ◌≢◌, refl, ◌↔◌, ◌⊎◌, [], ◌∷◌, List, some, ok, Result,
  contains, All, keys, lookup, value, concat, ap, sym, eq_iff, false≢true, ok_injective, Map,
}
use starboard.Constants.{
  label_container_name, label_resource_spec_hash, annotation_container_images,
}
use starboard.Kube.Kind
use starboard.Kube.Object.{get_pod_spec, ObjectKey}
use starboard.Kube.Reference.{object_ref_to_labels, object_ref_from_object_meta}
use starboard.Kube.Reference.RoundTrip.{ref_of}
use starboard.Kube.Reference.Selection.{selects}
use starboard.Kube.Server.{job_complete, ScanJob, Secret, key_of}
use starboard.Report.{VulnerabilityReport}
use starboard.Vulnerability.Builder.{build_scan_job, build_report}
use starboard.Vulnerability.Builder.Jobs.{scan_namespace, build_scan_job_carries}
use starboard.Vulnerability.Builder.Reports.{KeepsMeta, build_report_labels}
use starboard.Vulnerability.Store.{create_or_update, write}
use starboard.Vulnerability.Store.Writes.{Holds, write-Holds}
use starboard.Vulnerability.Controller.{has_reports}
use starboard.Vulnerability.Controller.Workload.{reconcile_workload}
use starboard.Vulnerability.Controller.Jobs.{process_complete_scan_job}
use starboard.Vulnerability.Controller.Reported.{is_reported, has_reports_iff}
use starboard.Vulnerability.Controller.Scheduling.{Unchanged, Scans, reconcile_workload_cases}
use starboard.Vulnerability.Controller.Events.{job_events, workload_events, events-build_scan_job}
use starboard.Vulnerability.Controller.Results.{Processed, process_complete_scan_job_cases}
use starboard.Tests.Data.{web, web_spec, valid_label, hashing}
use starboard.Tests.Server.{server, storage, put}
use starboard.Tests.Scans.{
  controller, kit, idle, busy, web_key, web_job, web_scan, web_report, report_of,
}

cases_example :
    Unchanged (controller []) idle (reconcile_workload (controller []) Kind.pod web_key idle)
    ⊎ Scans
        (controller [])
        idle
        Kind.pod
        web_key
        (reconcile_workload (controller []) Kind.pod web_key idle)
cases_example = reconcile_workload_cases (controller []) idle Kind.pod web_key

complete_example :
    Processed (controller []) busy web_job (process_complete_scan_job (controller []) web_job busy)
complete_example = process_complete_scan_job_cases (controller []) busy web_job

abbrev images : Map String
images = ("app", "nginx") ∷ []

has_reports_example :
    (has_reports (controller (report_of "app" ∷ [])) (ref_of web) "spec-web" images idle ≡ ok true)
    ↔ ((c : String) → is_reported "spec-web" c (report_of "app" ∷ []) ≡ contains (keys images) c)
has_reports_example =
    has_reports_iff (controller (report_of "app" ∷ [])) (ref_of web) "spec-web" images idle
      (report_of "app" ∷ []) refl

app_log : ◌≢◌ {A = String} "app" "log"
app_log e = false≢true ((eq_iff "app" "log").1 e)

write_example :
    All
      (Holds server storage (put (report_of "log") (put (report_of "app") idle)))
      (report_of "app" ∷ report_of "log" ∷ [])
    × ((key : ObjectKey)
        → All (λ rep. key_of rep.meta ≢ key) (report_of "app" ∷ report_of "log" ∷ [])
        → server.get_report key (put (report_of "log") (put (report_of "app") idle))
          ≡ server.get_report key idle)
unfolding write handle create_or_update is_not_found
write_example =
    write-Holds server storage (report_of "app" ∷ report_of "log" ∷ []) idle
      (put (report_of "log") (put (report_of "app") idle))
      (((λ e. app_log (ap (λ k. k.name) e)), tt), (tt, tt)) refl

abbrev pick {ℓ} : {A : Type ℓ} → Result A → A → A
pick (ok a) b = a
pick _ b = b

abbrev built : ScanJob × List Secret
built = pick (build_scan_job kit web_scan) (web_job, [])

carries_example :
    (object_ref_from_object_meta built.0.meta ≡ ok (ref_of web))
    × (lookup label_resource_spec_hash built.0.meta.labels ≡ some "spec-web")
    × (lookup annotation_container_images built.0.meta.annotations ≡ some "images")
    × (built.0.meta.name ≡ concat "scan-vulnerabilityreport-" (hashing.hash_ref (ref_of web)))
    × (built.0.meta.namespace ≡ scan_namespace web_scan)
    × All (λ secret. secret.meta.namespace ≡ scan_namespace web_scan) built.1
unfolding get_pod_spec build_scan_job vulnerability_scan_jobs_in_same_namespace lookup concat
carries_example =
    build_scan_job_carries kit web_scan web_spec "images" built.0 built.1 refl refl refl

keeps : KeepsMeta kit
keeps = record {
  kept = λ obj before after h.
      let e = sym (ok_injective h) in
      (
        ap (λ x. x.meta.name) e,
        ap (λ x. x.meta.namespace) e,
        ap (λ x. x.meta.labels) e,
        ap (λ x. x.meta.annotations) e,
      );
}

abbrev made : VulnerabilityReport
made = pick (build_report kit web_report) (report_of "x")

labels_example :
    (selects (object_ref_to_labels valid_label hashing (ref_of web)) made.meta.labels ≡ true)
    × (made.meta.namespace ≡ "prod")
    × (lookup label_container_name made.meta.labels ≡ some "app")
    × (value label_resource_spec_hash made.meta.labels ≡ "spec-web")
unfolding build_report
labels_example = build_report_labels kit keeps web_report made refl

events_example :
    (job_events "starboard" [] (record built.0 { conditions = job_complete ∷ [] }) ≡ true)
    × (workload_events (λ namespace. true) built.0.meta ≡ false)
unfolding get_pod_spec build_scan_job
events_example =
    events-build_scan_job kit web_scan web_spec "images" built.0 built.1 refl refl refl job_complete
      [] (λ namespace. true)
