-- ===== src/Kube/Kind.antt =====
-- Kinds of Kubernetes objects: the constants and tests at the top of pkg/kube/object.go.
use starboard.Prelude.{String, Bool, false, ◌||◌, Option, none, some, ◌==◌}

abbrev pub pod : String
pod = "Pod"

abbrev pub replica_set : String
replica_set = "ReplicaSet"

abbrev pub replication_controller : String
replication_controller = "ReplicationController"

abbrev pub deployment : String
deployment = "Deployment"

abbrev pub stateful_set : String
stateful_set = "StatefulSet"

abbrev pub daemon_set : String
daemon_set = "DaemonSet"

abbrev pub cron_job : String
cron_job = "CronJob"

abbrev pub job : String
job = "Job"

abbrev pub cluster_role : String
cluster_role = "ClusterRole"

abbrev pub cluster_role_bindings : String
cluster_role_bindings = "ClusterRoleBinding"

abbrev pub custom_resource_definition : String
custom_resource_definition = "CustomResourceDefinition"

abbrev pub pod_security_policy : String
pod_security_policy = "PodSecurityPolicy"

-- A reference to the controlling owner of an object.
pub record OwnerReference : Type 0 where
  pub kind : String
  pub name : String

unfoldable pub is_built_in_workload : Option OwnerReference → Bool
is_built_in_workload none = false
is_built_in_workload (some controller) =
    controller.kind == replica_set
    || controller.kind == replication_controller
    || controller.kind == stateful_set
    || controller.kind == daemon_set
    || controller.kind == job

unfoldable pub is_workload : String → Bool
is_workload kind =
    kind == "Pod"
    || kind == "Deployment"
    || kind == "ReplicaSet"
    || kind == "ReplicationController"
    || kind == "StatefulSet"
    || kind == "DaemonSet"
    || kind == "Job"
    || kind == "CronJob"

unfoldable pub is_cluster_scoped_kind : String → Bool
is_cluster_scoped_kind kind =
    kind == cluster_role
    || kind == cluster_role_bindings
    || kind == custom_resource_definition
    || kind == pod_security_policy
