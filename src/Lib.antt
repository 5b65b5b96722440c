-- ===== src/Lib.antt =====
-- A model of Starboard, which keeps security reports of the workloads of a Kubernetes cluster. The operator
-- watches workloads, runs a scanner in a job for each that has no reports of its present pod spec, reads
-- the scanner's output from the logs of the job, and stores it as reports that the workload owns.
--
-- The parts and their files:
--   Kube (pkg/kube/object.go, resources.go): objects, their kinds and pod specs (Kube/Object, Kube/Kind); how an
--     owner is written into labels and annotations and read back (Kube/Reference: ObjectRefToLabels,
--     ObjectToObjectMeta, ObjectRefFromObjectMeta); the object resolver (Kube/Resolver: ReportOwner,
--     ReplicaSetByDeployment, RelatedReplicaSetName and the others); the API server (Kube/Server).
--   Operator: the configuration and install modes (Operator/Config, Operator/Config/InstallMode, for
--     pkg/operator/etc/config.go, pkg/operator/predicate/predicate.go and pkg/starboard/config.go), the limit on scan
--     jobs (Operator/Limit, for pkg/operator/controller/limit_checker.go), and the expiry of reports
--     (Operator/Expiry, for pkg/operator/controller/ttl_report.go and pkg/utils/dateutil.go); the predicates on
--     single objects stand in Operator/Predicate.
--   Vulnerability (pkg/vulnerabilityreport): the builders of scan jobs and reports (Vulnerability/Builder),
--     their storage (Vulnerability/Store, for io.go), and the controller (Vulnerability/Controller, for
--     controller.go) with its reconciler of workloads (Workload, Submit) and of jobs (Jobs), and
--     the events that reach them (Events).
--   Policy (pkg/policy/policy.go): which policies apply to a kind (Policy, Policy/Selection), and their
--     evaluation with the engine for Rego as a parameter (Policy/Eval).
--   ConfigAudit (pkg/configauditreport): the reports and the server that keeps them (ConfigAudit), their store
--     (ConfigAudit/Store, for io.go), the builders (ConfigAudit/Builder), the audit by policies
--     (ConfigAudit/Resource, for controller.go) and that of the command line (ConfigAudit/Command, for
--     scanner.go). The audit by a plugin of pkg/operator/controller/configauditreport.go stands in
--     ConfigAudit/Scans and ConfigAudit/Jobs, and the deletion of outdated reports of that package's
--     plugins_config.go and of controller.go in ConfigAudit/Cleanup.
--   Docker (pkg/docker/config.go): the settings of registries, and the credentials of images (Docker/Secrets, for
--     pkg/kube/secrets.go).
--   Benchmark (pkg/kubebench): reports on nodes with their store and builder, and the controller of
--     pkg/operator/controller/ciskubebenchreport.go (Benchmark/Nodes, Benchmark/Jobs).
--   Html: the orders of pkg/vulnerabilityreport/sort.go and pkg/report/sort.go, and the most frequent failed checks of
--     pkg/report/html.go. The stable sort of Go's library is an insertion sort.
--   Compliance (pkg/compliance): the results of scanners by check (Compliance/Mapper, for mapper.go), the maps
--     of a specification (Compliance/Spec), control checks and their details (Compliance/Checks), the writes of the
--     reports (Compliance/Report, for io.go) and their schedule (Compliance/Reconciler).
--   Report and Constants hold the types of pkg/apis and the label keys of pkg/starboard/constants.go.
--   Prelude holds results, actions, maps and texts; Tests holds small runs.
--
-- The controller asks the limit, the resolver and the store, which it takes as the interfaces LimitChecker,
-- Cluster and ReadWriter; the builders make what it submits and writes.
--
-- The API server is no part of the program. It is a parameter: a state, its reads as functions of the state,
-- and its writes as actions (state to result and state), so that what was written before an error stays
-- written. The reads of one step see one state; between two steps of a run only the run itself changes it.
-- What a theorem needs of the server or of another library is a named hypothesis (Storage, Stores, KeepsMeta).
-- Hashes, label validation, JSON, file name patterns, durations and the scanners are parameters too.
--
-- Errors are told apart by what the code asks of them: the reason of the API server, the program's own error
-- values, wrapping, and a panic where the code would panic. Numbers are natural numbers and integers
-- without a bound; times are nanoseconds, and that Go's Time.Sub stops at 64 bits is left out. Every loop
-- runs over a list, so there is no fuel. Go's maps are association lists, and theorems over all lists
-- are theorems over all orders of iteration.
--
-- The run of a reconciler is one step: that two of them overlap is left out, also where the limit on scan jobs
-- is concerned.
--
-- Not modelled: logging, the registration of watches, generated clients and the engine for Rego, and, so far,
-- the commands (but for the scanner of pkg/configauditreport), the scanners' plugins, the templates of
-- HTML reports and the rest of their data, kube-hunter, the settings of plugins and the runner.
pub mod Prelude
pub mod Constants
pub mod Kube
pub mod Report
pub mod Operator
pub mod Vulnerability
pub mod Benchmark
pub mod Compliance
pub mod ConfigAudit
pub mod Docker
pub mod Html
pub mod Policy
pub mod Tests
