-- ===== src/Kube/Object.antt =====
-- Kubernetes objects as pkg/kube/object.go and pkg/kube/resources.go see them. The Go type of an object is
-- a tag, so that a type switch is a match on the tag.
use starboard.Prelude.{String, Bool, List, [], ◌∷◌, Option, Map, insert, message, Result, ok, err}
use starboard.Kube.Kind.{OwnerReference}

abbrev pub Labels : Type 0
Labels = Map String

-- metav1.ObjectMeta. `controller` is what metav1.GetControllerOf reads from the owner references, and
-- `deleted` tells whether the deletion timestamp is set. A nil map is the empty map.
pub record ObjectMeta : Type 0 where
  pub name : String
  pub namespace : String
  pub labels : Labels
  pub annotations : Map String
  pub controller : Option OwnerReference
  pub deleted : Bool

pub record Container : Type 0 where
  pub name : String
  pub image : String

pub record PodSpec : Type 0 where
  pub containers : List Container
  pub service_account_name : String
  pub image_pull_secrets : List String
  pub node_name : String
  pub tolerations : List String

pub data GoType : Type 0 where
  pod replica_set replication_controller deployment stateful_set daemon_set cron_job job : GoType
  service config_map role role_binding network_policy ingress resource_quota limit_range : GoType
  cluster_role cluster_role_binding custom_resource_definition pod_security_policy : GoType
  other_type : GoType

-- What the API server stores for an object. `type_kind` is TypeMeta.Kind; `pod_spec` is that of the pod or
-- of its template, and `selector` the label selector, both only for workloads.
pub record Content : Type 0 where
  pub type_kind : String
  pub meta : ObjectMeta
  pub selector : Labels
  pub pod_spec : PodSpec

pub record Object : Type 0 where
  pub go_type : GoType
  pub content : Content
  pub open content use *

pub record ObjectRef : Type 0 where
  pub kind : String
  pub name : String
  pub namespace : String

pub record ObjectKey : Type 0 where
  pub name : String
  pub namespace : String

unfoldable pub object_ref_from_kind_and_object_key : String → ObjectKey → ObjectRef
object_ref_from_kind_and_object_key kind key = record {
  kind = kind;
  name = key.name;
  namespace = key.namespace;
}

pod_spec_of : GoType → PodSpec → Result PodSpec
pod_spec_of GoType.pod spec = ok spec
pod_spec_of GoType.deployment spec = ok spec
pod_spec_of GoType.replica_set spec = ok spec
pod_spec_of GoType.replication_controller spec = ok spec
pod_spec_of GoType.stateful_set spec = ok spec
pod_spec_of GoType.daemon_set spec = ok spec
pod_spec_of GoType.cron_job spec = ok spec
pod_spec_of GoType.job spec = ok spec
pod_spec_of _ spec = err (message "unsupported workload")

unfoldable pub get_pod_spec : Object → Result PodSpec
unfolding pod_spec_of
get_pod_spec obj = pod_spec_of obj.go_type obj.pod_spec

-- The spew and FNV based hashes of kube.ComputeHash, one for each type of value that is hashed. The spew
-- printer is a library, so the functions are parameters of the model.
pub record Hashing : Type 0 where
  pub hash_pod_spec : PodSpec → String
  pub hash_name : String → String
  pub hash_ref : ObjectRef → String
  pub hash_object : Object → String

spec_hash : Hashing → GoType → Object → Result String
spec_hash h GoType.pod obj = ok (h.hash_pod_spec obj.pod_spec)
spec_hash h GoType.deployment obj = ok (h.hash_pod_spec obj.pod_spec)
spec_hash h GoType.replica_set obj = ok (h.hash_pod_spec obj.pod_spec)
spec_hash h GoType.replication_controller obj = ok (h.hash_pod_spec obj.pod_spec)
spec_hash h GoType.stateful_set obj = ok (h.hash_pod_spec obj.pod_spec)
spec_hash h GoType.daemon_set obj = ok (h.hash_pod_spec obj.pod_spec)
spec_hash h GoType.cron_job obj = ok (h.hash_pod_spec obj.pod_spec)
spec_hash h GoType.job obj = ok (h.hash_pod_spec obj.pod_spec)
spec_hash h GoType.other_type obj = err (message "computing spec hash of unsupported object")
spec_hash h _ obj = ok (h.hash_object obj)

-- The branch of the workloads asks for the pod spec first, which is there for each of those types.
unfoldable pub compute_spec_hash : Hashing → Object → Result String
unfolding spec_hash
compute_spec_hash h obj = spec_hash h obj.go_type obj

-- ContainerImages: container names to image references.
collect_images : List Container → Map String → Map String
collect_images [] images = images
collect_images (container ∷ containers) images =
    collect_images containers (insert container.name container.image images)

unfoldable pub get_container_images_from_pod_spec : PodSpec → Map String
unfolding collect_images
get_container_images_from_pod_spec spec = collect_images spec.containers []
