-- ===== src/Tests/Data.antt =====
-- A small cluster: a Pod of its own, a Deployment with two ReplicaSets, and a Pod of a Job of a CronJob.
use starboard.Prelude.{
  String, Bool, false, not, [], ◌∷◌, Option, none, some, Map, ◌==◌, if◌then◌else◌, concat, Result,
  ok, err, status, not_found,
}
use starboard.Kube.Kind
use starboard.Kube.Kind.{OwnerReference}
use starboard.Kube.Object.{ObjectMeta, PodSpec, GoType, Content, Object, Hashing, Labels}
use starboard.Kube.Resolver.{Cluster, deployment_annotation}

abbrev pub meta_of : String → Labels → Map String → Option OwnerReference → ObjectMeta
meta_of name labels annotations controller = record {
  name = name;
  namespace = "prod";
  labels = labels;
  annotations = annotations;
  controller = controller;
  deleted = false;
}

abbrev pub web_spec : PodSpec
web_spec = record {
  containers =
      record { name = "app"; image = "nginx:1.16" }
      ∷ record { name = "log"; image = "fluentd:1" }
      ∷ [];
  service_account_name = "web";
  image_pull_secrets = [];
  node_name = "node-1";
  tolerations = [];
}

abbrev pub content_of : String → String → String → Option OwnerReference → Content
content_of kind name revision controller = record {
  type_kind = kind;
  meta = meta_of name [] ((deployment_annotation, revision) ∷ []) controller;
  selector = ("app", name) ∷ [];
  pod_spec = web_spec;
}

abbrev pub owned_by : String → String → Option OwnerReference
owned_by kind name = some (record { kind = kind; name = name })

abbrev pub web : Object
web = record { go_type = GoType.pod; content = content_of "Pod" "web" "" none }

-- A Pod whose name is no valid label value.
abbrev pub long : Object
long = record { go_type = GoType.pod; content = content_of "Pod" "long" "" none }

abbrev pub shop : Object
shop = record { go_type = GoType.deployment; content = content_of "Deployment" "shop" "2" none }

abbrev pub shop_old : Object
shop_old = record {
  go_type = GoType.replica_set;
  content = content_of "ReplicaSet" "shop-1" "1" (owned_by "Deployment" "shop");
}

abbrev pub shop_new : Object
shop_new = record {
  go_type = GoType.replica_set;
  content = content_of "ReplicaSet" "shop-2" "2" (owned_by "Deployment" "shop");
}

abbrev pub nightly : Object
nightly = record { go_type = GoType.cron_job; content = content_of "CronJob" "nightly" "" none }

abbrev pub nightly_job : Object
nightly_job = record {
  go_type = GoType.job;
  content = content_of "Job" "nightly-7" "" (owned_by "CronJob" "nightly");
}

abbrev pub nightly_pod : Object
nightly_pod = record {
  go_type = GoType.pod;
  content = content_of "Pod" "nightly-7-x" "" (owned_by "Job" "nightly-7");
}

abbrev pub valid_label : String → Bool
valid_label name = not (name == "long")

abbrev pub hashing : Hashing
hashing = record {
  hash_pod_spec = λ spec. concat "spec-" spec.service_account_name;
  hash_name = λ name. concat "name-" name;
  hash_ref = λ ref. concat ref.kind ref.name;
  hash_object = λ obj. obj.meta.name;
}

abbrev pub missing : {A : Type 0} → Result A
missing = err (status not_found)

abbrev pub kind_of : GoType → Result String
kind_of GoType.pod = ok Kind.pod
kind_of GoType.replica_set = ok Kind.replica_set
kind_of GoType.deployment = ok Kind.deployment
kind_of GoType.cron_job = ok Kind.cron_job
kind_of GoType.job = ok Kind.job
kind_of _ = missing

abbrev pub stored : GoType → String → Result Content
stored GoType.pod name =
    if name == "web"
    then ok web.content
    else if name == "nightly-7-x"
    then ok nightly_pod.content
    else missing
stored GoType.deployment name = if name == "shop" then ok shop.content else missing
stored GoType.job name = if name == "nightly-7" then ok nightly_job.content else missing
stored GoType.cron_job name = if name == "nightly" then ok nightly.content else missing
stored _ name = missing

abbrev pub cluster : Cluster
cluster = record {
  get = λ go_type key. stored go_type key.name;
  list_replica_sets = λ namespace selector. ok (shop_old.content ∷ shop_new.content ∷ []);
  list_pods = λ namespace selector. ok [];
  gvk_kind = kind_of;
}
