-- ===== src/Kube/Resolver.antt =====
-- ObjectResolver of pkg/kube/object.go. It only reads, so its methods are functions of what the API server
-- answers while they run; the server is the parameter `Cluster`.
pub mod Owner
pub mod Revision
pub mod Related
use starboard.Prelude.{
  String, Bool, true, List, [], ◌∷◌, Option, none, some, ◌==◌, ◌&&◌, if◌then◌else◌, value, Error,
  message, replica_set_not_found, no_running_pods, unsupported_kind, panicked, Result, ok, err,
  ◌>>=◌, wrap, or_error,
}
use starboard.Kube.Kind
use starboard.Kube.Kind.{OwnerReference}
use starboard.Kube.Object.{Labels, GoType, Content, Object, ObjectRef, ObjectKey}

-- client.Client as the resolver reads it, and the kinds that the scheme registers for Go types.
pub record Cluster : Type 0 where
  pub get : GoType → ObjectKey → Result Content
  pub list_replica_sets : String → Labels → Result (List Content)
  pub list_pods : String → Labels → Result (List Content)
  pub gvk_kind : GoType → Result String

abbrev pub deployment_annotation : String
deployment_annotation = "deployment.kubernetes.io/revision"

abbrev pub revision : Content → String
revision obj = value deployment_annotation obj.meta.annotations

-- The switch of ObjectFromObjectRef.
type_of_kind : String → Option GoType
type_of_kind kind =
    if kind == "Pod"
    then some GoType.pod
    else if kind == "ReplicaSet"
    then some GoType.replica_set
    else if kind == "ReplicationController"
    then some GoType.replication_controller
    else if kind == "Deployment"
    then some GoType.deployment
    else if kind == "StatefulSet"
    then some GoType.stateful_set
    else if kind == "DaemonSet"
    then some GoType.daemon_set
    else if kind == "CronJob"
    then some GoType.cron_job
    else if kind == "Job"
    then some GoType.job
    else if kind == "Service"
    then some GoType.service
    else if kind == "ConfigMap"
    then some GoType.config_map
    else if kind == "Role"
    then some GoType.role
    else if kind == "RoleBinding"
    then some GoType.role_binding
    else if kind == "NetworkPolicy"
    then some GoType.network_policy
    else if kind == "Ingress"
    then some GoType.ingress
    else if kind == "ResourceQuota"
    then some GoType.resource_quota
    else if kind == "LimitRange"
    then some GoType.limit_range
    else if kind == "ClusterRole"
    then some GoType.cluster_role
    else if kind == "ClusterRoleBinding"
    then some GoType.cluster_role_binding
    else if kind == "CustomResourceDefinition"
    then some GoType.custom_resource_definition
    else if kind == "PodSecurityPolicy"
    then some GoType.pod_security_policy
    else none

-- `obj.(*T)` on what ensureGVK returned: a nil object makes the assertion panic.
unfoldable pub assert_type : Result Object → Result Object
assert_type (ok obj) = ok obj
assert_type (err e) = err panicked

module _ (c : Cluster) where
  unfoldable pub ensure_gvk : Object → Result Object
  ensure_gvk obj = do
    kind ← c.gvk_kind obj.go_type
    ok (record obj { content = record obj.content { type_kind = kind } })

  unfoldable pub object_from_object_ref : ObjectRef → Result Object
  unfolding type_of_kind
  object_from_object_ref ref = do
    go_type ← or_error (type_of_kind ref.kind) (message "unknown kind")
    content ← c.get go_type (record { name = ref.name; namespace = ref.namespace })
    ensure_gvk (record { go_type = go_type; content = content })

  -- The loop of ReplicaSetByDeployment.
  first_of_revision : Content → List Content → Result Object
  first_of_revision deployment [] = err replica_set_not_found
  first_of_revision deployment (rs ∷ items) =
      let others = first_of_revision deployment items in
      if revision deployment == revision rs
      then ensure_gvk (record { go_type = GoType.replica_set; content = rs })
      else others

  unfoldable pub replica_set_by_deployment : Content → Result Object
  unfolding first_of_revision
  replica_set_by_deployment deployment = do
    items ←
        wrap "listing replicasets for deployment"
          (c.list_replica_sets deployment.meta.namespace deployment.selector)
    first_of_revision deployment items

  unfoldable pub replica_set_by_deployment_ref : ObjectRef → Result Object
  replica_set_by_deployment_ref ref = do
    deployment ←
        wrap "getting deployment"
          (c.get GoType.deployment (record { name = ref.name; namespace = ref.namespace }))
    replica_set_by_deployment deployment

  -- Get of an owner by the name in the owner reference, in the namespace of the owned object.
  controlled_by : String → GoType → Content → Option OwnerReference → Result Object
  controlled_by kind go_type obj none = err (message "did not find a controller")
  controlled_by kind go_type obj (some controller) =
      if controller.kind == kind
      then (do
        owner ← c.get go_type (record { name = controller.name; namespace = obj.meta.namespace })
        ok (record { go_type = go_type; content = owner }))
      else err (message "is controlled by another kind")

  unfoldable pub replica_set_by_pod : Content → Result Object
  unfolding controlled_by
  replica_set_by_pod pod = do
    rs ← controlled_by Kind.replica_set GoType.replica_set pod pod.meta.controller
    ensure_gvk rs

  unfoldable pub replica_set_by_pod_ref : ObjectRef → Result Object
  replica_set_by_pod_ref ref = do
    pod ← c.get GoType.pod (record { name = ref.name; namespace = ref.namespace })
    replica_set_by_pod pod

  unfoldable pub cron_job_by_job : Content → Result Object
  unfolding controlled_by
  cron_job_by_job job = do
    cj ← controlled_by Kind.cron_job GoType.cron_job job job.meta.controller
    assert_type (ensure_gvk cj)

  unfoldable pub job_by_pod : Content → Result Object
  unfolding controlled_by
  job_by_pod pod = do
    job ← controlled_by Kind.job GoType.job pod pod.meta.controller
    assert_type (ensure_gvk job)

  -- The case of a Job in ReportOwner.
  owner_of_job : Object → Option OwnerReference → Result Object
  owner_of_job obj none = ok obj
  owner_of_job obj (some controller) =
      if controller.kind == Kind.cron_job then cron_job_by_job obj.content else ok obj

  -- The case of a Pod. JobByPod returns a Job, so the recursive call takes the case above.
  owner_of_pod : Object → Option OwnerReference → Result Object
  unfolding owner_of_job
  owner_of_pod obj none = ok obj
  owner_of_pod obj (some controller) =
      if controller.kind == Kind.replica_set
      then replica_set_by_pod obj.content
      else if controller.kind == Kind.job
      then (do job ← job_by_pod obj.content; owner_of_job job job.meta.controller)
      else ok obj

  owner_by_type : GoType → Object → Result Object
  unfolding owner_of_pod
  owner_by_type GoType.deployment obj = replica_set_by_deployment obj.content
  owner_by_type GoType.job obj = owner_of_job obj obj.meta.controller
  owner_by_type GoType.pod obj = owner_of_pod obj obj.meta.controller
  owner_by_type _ obj = ok obj

  unfoldable pub report_owner : Object → Result Object
  unfolding owner_by_type
  report_owner obj = owner_by_type obj.go_type obj

  unfoldable pub related_replica_set_name : ObjectRef → Result String
  related_replica_set_name ref =
      if ref.kind == Kind.deployment
      then (do rs ← replica_set_by_deployment_ref ref; ok rs.meta.name)
      else if ref.kind == Kind.pod
      then (do rs ← replica_set_by_pod_ref ref; ok rs.meta.name)
      else err (message "can only get related ReplicaSet for Deployment or Pod")

  unfoldable pub get_pods_by_label_selector : String → Labels → Result (List Content)
  get_pods_by_label_selector namespace selector =
      wrap "listing pods in namespace" (c.list_pods namespace selector)

  some_pods : List Content → Result (List Content)
  some_pods [] = err no_running_pods
  some_pods (pod ∷ pods) = ok (pod ∷ pods)

  unfoldable pub get_active_pods_by_label_selector : String → Labels → Result (List Content)
  unfolding get_pods_by_label_selector some_pods
  get_active_pods_by_label_selector namespace selector = do
    pods ← get_pods_by_label_selector namespace selector
    some_pods pods

  -- pods[0].Spec.NodeName; an empty slice panics.
  first_node : List Content → Result String
  first_node [] = err panicked
  first_node (pod ∷ pods) = ok pod.pod_spec.node_name

  node_of_pods : String → Labels → Result String
  unfolding get_active_pods_by_label_selector first_node
  node_of_pods namespace selector = do
    pods ← get_active_pods_by_label_selector namespace selector
    first_node pods

  node_by_type : GoType → Object → Result String
  unfolding node_of_pods
  node_by_type GoType.pod obj = ok obj.pod_spec.node_name
  node_by_type GoType.deployment obj = do
    replica_set ← replica_set_by_deployment obj.content
    node_of_pods obj.meta.namespace replica_set.selector
  node_by_type GoType.replica_set obj = node_of_pods obj.meta.namespace obj.selector
  node_by_type GoType.replication_controller obj = node_of_pods obj.meta.namespace obj.selector
  node_by_type GoType.stateful_set obj = node_of_pods obj.meta.namespace obj.selector
  node_by_type GoType.daemon_set obj = node_of_pods obj.meta.namespace obj.selector
  node_by_type GoType.cron_job obj = err unsupported_kind
  node_by_type GoType.job obj = node_of_pods obj.meta.namespace obj.selector
  node_by_type _ obj = err unsupported_kind

  unfoldable pub get_node_name : Object → Result String
  unfolding node_by_type
  get_node_name obj = node_by_type obj.go_type obj

  unfoldable pub is_active_replica_set : Object → Option OwnerReference → Result Bool
  is_active_replica_set obj none = ok true
  is_active_replica_set obj (some controller) =
      if controller.kind == Kind.deployment
      then (do
        deployment ←
            c.get GoType.deployment
              (record { name = controller.name; namespace = obj.meta.namespace })
        ok (revision obj.content == revision deployment))
      else ok true
