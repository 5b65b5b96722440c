-- ===== src/Constants.antt =====
-- Label and annotation keys: pkg/starboard/constants.go.
use Prim.Native.String.{String}

abbrev pub label_resource_kind : String
label_resource_kind = "starboard.resource.kind"

abbrev pub label_resource_name : String
label_resource_name = "starboard.resource.name"

abbrev pub label_resource_name_hash : String
label_resource_name_hash = "starboard.resource.name-hash"

abbrev pub label_resource_namespace : String
label_resource_namespace = "starboard.resource.namespace"

abbrev pub label_container_name : String
label_container_name = "starboard.container.name"

abbrev pub label_resource_spec_hash : String
label_resource_spec_hash = "resource-spec-hash"

abbrev pub label_plugin_config_hash : String
label_plugin_config_hash = "plugin-config-hash"

abbrev pub label_config_audit_report_scanner : String
label_config_audit_report_scanner = "configAuditReport.scanner"

abbrev pub label_vulnerability_report_scanner : String
label_vulnerability_report_scanner = "vulnerabilityReport.scanner"

abbrev pub label_kube_bench_report_scanner : String
label_kube_bench_report_scanner = "kubeBenchReport.scanner"

abbrev pub label_k8s_app_managed_by : String
label_k8s_app_managed_by = "app.kubernetes.io/managed-by"

abbrev pub app_starboard : String
app_starboard = "starboard"

abbrev pub annotation_container_images : String
annotation_container_images = "starboard.container-images"

abbrev pub policies_config_map_name : String
policies_config_map_name = "starboard-policies-config"

-- NamespaceName, where the command line keeps its settings.
abbrev pub namespace_name : String
namespace_name = "starboard"
