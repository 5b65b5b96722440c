-- ===== src/Operator/Predicate.antt =====
-- The predicates on single objects: pkg/operator/predicate/predicate.go. Those that hold of any kind of object
-- are functions of its metadata.
use starboard.Prelude.{
  String, Bool, true, false, List, [], ◌∷◌, Option, none, some, lookup, ◌==◌, is_some,
}
use starboard.Constants.{
  label_k8s_app_managed_by, app_starboard, label_vulnerability_report_scanner,
  label_config_audit_report_scanner, label_kube_bench_report_scanner,
}
use starboard.Kube.Object.{ObjectMeta}
use starboard.Kube.Server.{ScanJob, JobConditionType}

-- m[k] == v, false where the key is missing.
is_value : String → Option String → Bool
is_value v none = false
is_value v (some w) = w == v

unfoldable pub has_name : String → ObjectMeta → Bool
has_name name obj = name == obj.name

unfoldable pub in_namespace : String → ObjectMeta → Bool
in_namespace namespace obj = namespace == obj.namespace

unfoldable pub managed_by_starboard_operator : ObjectMeta → Bool
unfolding is_value
managed_by_starboard_operator obj =
    is_value app_starboard (lookup label_k8s_app_managed_by obj.labels)

unfoldable pub is_being_terminated : ObjectMeta → Bool
is_being_terminated obj = obj.deleted

is_any : List JobConditionType → Bool
is_any [] = false
is_any (condition ∷ conditions) = true

unfoldable pub job_has_any_condition : ScanJob → Bool
unfolding is_any
job_has_any_condition job = is_any job.conditions

unfoldable pub is_vulnerability_report_scan : ObjectMeta → Bool
is_vulnerability_report_scan obj = is_some (lookup label_vulnerability_report_scanner obj.labels)

unfoldable pub is_config_audit_report_scan : ObjectMeta → Bool
is_config_audit_report_scan obj = is_some (lookup label_config_audit_report_scanner obj.labels)

unfoldable pub is_kube_bench_report_scan : ObjectMeta → Bool
is_kube_bench_report_scan obj = is_some (lookup label_kube_bench_report_scanner obj.labels)

unfoldable pub is_linux_node : ObjectMeta → Bool
unfolding is_value
is_linux_node obj = is_value "linux" (lookup "kubernetes.io/os" obj.labels)

unfoldable pub is_leader_election_resource : ObjectMeta → Bool
is_leader_election_resource obj =
    is_some (lookup "control-plane.alpha.kubernetes.io/leader" obj.annotations)
