-- ===== src/Kube/Server.antt =====
-- The API server as the operator's components call it. It is not part of the program, so it is a parameter:
-- a state, the reads as functions of the state, and the writes as actions on it.
use starboard.Prelude.{String, List, Map, Option, Result}
use starboard.Prelude.Int.{ℤ, pos}
use starboard.Prelude.Action.{Action}
use starboard.Kube.Object.{Labels, ObjectMeta, ObjectKey, PodSpec}
use starboard.Kube.Resolver.{Cluster}
use starboard.Report.{VulnerabilityReport}

pub data JobConditionType : Type 0 where
  job_complete job_failed job_other : JobConditionType

pub record PodTemplate : Type 0 where
  pub meta : ObjectMeta
  pub spec : PodSpec

-- batchv1.Job of a scan.
pub record ScanJob : Type 0 where
  pub meta : ObjectMeta
  pub conditions : List JobConditionType
  pub active_deadline_seconds : Option ℤ
  pub template : PodTemplate

-- corev1.Secret; `owner` is the name in the owner reference that SetOwnerReference adds.
pub record Secret : Type 0 where
  pub meta : ObjectMeta
  pub content : Map String
  pub owner : Option String

-- A list is narrowed by labels and by a namespace, or by labels alone.
pub record Server (S : Type 0) : Type 0 where
  pub cluster : S → Cluster
  pub get_job : ObjectKey → S → Result ScanJob
  pub list_jobs : Labels → Option String → S → Result (List ScanJob)
  pub get_report : ObjectKey → S → Result VulnerabilityReport
  pub list_reports : Labels → String → S → Result (List VulnerabilityReport)
  pub create_secret : Secret → Action S (Unit {0})
  pub update_secret : Secret → Action S (Unit {0})
  pub create_job : ScanJob → Action S (Unit {0})
  pub delete_job : ObjectKey → Action S (Unit {0})
  pub create_report : VulnerabilityReport → Action S (Unit {0})
  pub update_report : VulnerabilityReport → Action S (Unit {0})
  pub delete_report : ObjectKey → Action S (Unit {0})
  pub set_owner_reference : ScanJob → Secret → Result Secret

-- ctrl.Result: zero asks for no requeue.
pub record Outcome : Type 0 where
  pub requeue_after : ℤ

abbrev pub done : Outcome
done = record { requeue_after = pos 0 }

abbrev pub key_of : ObjectMeta → ObjectKey
key_of meta = record { name = meta.name; namespace = meta.namespace }
