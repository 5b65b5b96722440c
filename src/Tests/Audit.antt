-- ===== src/Tests/Audit.antt =====
-- A small API server that keeps configuration audits as a list, and the audit controller on it.
use starboard.Prelude.{
  String, sym, ap, List, [], ◌∷◌, Option, none, some, ok_injective, ok, or_error, status, Bool,
  not_found, if◌then◌else◌,
}
use starboard.Kube.Object.{ObjectKey, Labels}
use starboard.Kube.Server.{Server, key_of}
use starboard.ConfigAudit.{ConfigAuditReport, ReportApi, AuditServer}
use starboard.ConfigAudit.Store.{audit_read_writer}
use starboard.ConfigAudit.Store.Writes.{same_key, in_list}
use starboard.ConfigAudit.Builder.{AuditKit}
use starboard.ConfigAudit.Builder.Selected.{KeepsMeta}
use starboard.ConfigAudit.Resource.{ResourceController}
use starboard.Constants.{label_resource_kind}
use starboard.Tests.Data.{meta_of, cluster, missing, valid_label, hashing}
use starboard.Tests.Policy.{source, rego}
use starboard.Tests.Scans.{config}

abbrev pub Audits : Type 0
Audits = List ConfigAuditReport

abbrev pub base : {S : Type 0} → Server S
base = record {
  cluster = λ s. cluster;
  get_job = λ key s. missing;
  list_jobs = λ labels namespace s. ok [];
  get_report = λ key s. missing;
  list_reports = λ labels namespace s. ok [];
  create_secret = λ secret s. (ok tt, s);
  update_secret = λ secret s. (ok tt, s);
  create_job = λ job s. (ok tt, s);
  delete_job = λ key s. (ok tt, s);
  create_report = λ rep s. (ok tt, s);
  update_report = λ rep s. (ok tt, s);
  delete_report = λ key s. (ok tt, s);
  set_owner_reference = λ job secret. ok secret;
}

abbrev pub has_key : ObjectKey → ConfigAuditReport → Bool
has_key key report = same_key (key_of report.meta) key

abbrev filter : (ConfigAuditReport → Bool) → Audits → Audits
filter p [] = []
filter p (r ∷ rs) = let rest = filter p rs in if p r then r ∷ rest else rest

abbrev find : (ConfigAuditReport → Bool) → Audits → Option ConfigAuditReport
find p [] = none
find p (r ∷ rs) = let rest = find p rs in if p r then some r else rest

abbrev replaced : ConfigAuditReport → Audits → Audits
replaced report [] = []
replaced report (r ∷ rs) =
    let rest = replaced report rs in
    if has_key (key_of report.meta) r then report ∷ rs else r ∷ rest

abbrev pub but : ObjectKey → Audits → Audits
but key [] = []
but key (r ∷ rs) = let rest = but key rs in if has_key key r then rs else r ∷ rest

abbrev pub selected : Labels → Option String → Audits → Audits
selected labels none s = s
selected labels (some namespace) s = filter (in_list labels namespace) s

abbrev pub api : ReportApi Audits
api = record {
  get = λ key s. or_error (find (has_key key) s) (status not_found);
  list = λ labels namespace s. ok (selected labels namespace s);
  create = λ rep s. (ok tt, rep ∷ s);
  update = λ rep s. (ok tt, replaced rep s);
  delete = λ key s. (ok tt, but key s);
}

abbrev pub audit_server : AuditServer Audits
audit_server = record {
  base = base;
  reports = api;
  cluster_reports = api;
  get_config_map = λ key s. ok source;
}

abbrev pub audit_kit : AuditKit
audit_kit = record {
  hashing = hashing;
  valid_label = valid_label;
  set_controller_reference = λ obj rep. ok rep;
}

pub keeps_meta : KeepsMeta audit_kit
keeps_meta = record {
  kept = λ obj before after h.
      let e = sym (ok_injective h) in
      (ap (λ x. x.meta.name) e, ap (λ x. x.meta.namespace) e, ap (λ x. x.meta.labels) e);
}

abbrev pub auditor : ResourceController Audits String String
auditor = record {
  config = config;
  server = audit_server;
  read_writer = audit_read_writer audit_server valid_label hashing;
  kit = audit_kit;
  compute_hash = λ policies. "policies-1";
  rego = rego;
  version = "0.15.0";
}

abbrev pub sample : String → ConfigAuditReport
sample kind = record {
  meta = meta_of "pod-web" ((label_resource_kind, kind) ∷ []) [] none;
  report = record {
    scanner = record { name = "Starboard"; vendor = "Aqua Security"; version = "0.15.0" };
    summary = record { critical_count = 0; high_count = 0; medium_count = 0; low_count = 0 };
    checks = [];
    pod_checks = [];
    container_checks = [];
  };
}
