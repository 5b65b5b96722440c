-- ===== src/Tests/Server.antt =====
-- A small API server that keeps scan jobs and reports.
use starboard.Prelude.{
  Bool, true, ◌&&◌, ◌==◌, eq_iff, eq_refl, ◌≡◌, ◌≢◌, ap, sym, ◌∙◌, List, [], ◌∷◌, some,
  if◌then◌else◌, Result, ok, err, arith,
}
use starboard.Kube.Object.{ObjectKey}
use starboard.Kube.Server.{Server, ScanJob, key_of}
use starboard.Report.{VulnerabilityReport}
use starboard.Vulnerability.Store.Writes.{Storage}
use starboard.Tests.Data.{cluster, missing}

pub record State : Type 0 where
  pub jobs : List ScanJob
  pub reports : ObjectKey → Result VulnerabilityReport

abbrev pub same_key : ObjectKey → ObjectKey → Bool
same_key a b = (a.name == b.name) && (a.namespace == b.namespace)

-- What is stored under a key, if it is called so.
abbrev pub only : ObjectKey → Result VulnerabilityReport → Result VulnerabilityReport
only key (ok rep) = if same_key (key_of rep.meta) key then ok rep else missing
only key (err e) = err e

abbrev pub first_called : ObjectKey → List ScanJob → Result ScanJob
first_called key [] = missing
first_called key (job ∷ jobs) =
    let rest = first_called key jobs in if same_key (key_of job.meta) key then ok job else rest

abbrev pub but : ObjectKey → List ScanJob → List ScanJob
but key [] = []
but key (job ∷ jobs) =
    let rest = but key jobs in if same_key (key_of job.meta) key then rest else job ∷ rest

abbrev pub put : VulnerabilityReport → State → State
put rep s = record s {
  reports = λ key. if same_key (key_of rep.meta) key then ok rep else s.reports key;
}

abbrev pub server : Server State
server = record {
  cluster = λ s. cluster;
  get_job = λ key s. first_called key s.jobs;
  list_jobs = λ labels namespace s. ok s.jobs;
  get_report = λ key s. only key (s.reports key);
  list_reports = λ labels namespace s. ok [];
  create_secret = λ secret s. (ok tt, s);
  update_secret = λ secret s. (ok tt, s);
  create_job = λ job s. (ok tt, record s { jobs = job ∷ s.jobs });
  delete_job = λ key s. (ok tt, record s { jobs = but key s.jobs });
  create_report = λ rep s. (ok tt, put rep s);
  update_report = λ rep s. (ok tt, put rep s);
  delete_report =
      λ key s. (ok tt, record s { reports = λ k. if same_key key k then missing else s.reports k });
  set_owner_reference = λ job secret. ok (record secret { owner = some job.meta.name });
}

same_key_iff : (a b : ObjectKey) → same_key a b ≡ true → a ≡ b
same_key_iff a b h = ground (arith, eq_iff a.name b.name, eq_iff a.namespace b.namespace)

only_named :
    (key : ObjectKey) (r : Result VulnerabilityReport) (rep : VulnerabilityReport)
    → only key r ≡ ok rep
    → key_of rep.meta ≡ key
only_named key (ok other) rep h = ground (arith, same_key_iff (key_of other.meta) key)
only_named key (err e) rep h = cc

put_here :
    (rep : VulnerabilityReport) (s : State)
    → only (key_of rep.meta) ((put rep s).reports (key_of rep.meta)) ≡ ok rep
put_here rep s = simp eq_refl

put_there :
    (rep : VulnerabilityReport) (s : State) (key : ObjectKey)
    → key_of rep.meta ≢ key
    → only key ((put rep s).reports key) ≡ only key (s.reports key)
put_there rep s key apart = ground (arith, same_key_iff (key_of rep.meta) key)

pub storage : Storage server
storage = record {
  named = λ key s rep h. only_named key (s.reports key) rep h;
  created =
      λ rep s s' h. ap (λ p. server.get_report (key_of rep.meta) p.1) (sym h) ∙ put_here rep s;
  created_only = λ rep s s' key h apart.
      ap (λ p. server.get_report key p.1) (sym h) ∙ put_there rep s key apart;
  updated =
      λ rep s s' h. ap (λ p. server.get_report (key_of rep.meta) p.1) (sym h) ∙ put_here rep s;
  updated_only = λ rep s s' key h apart.
      ap (λ p. server.get_report key p.1) (sym h) ∙ put_there rep s key apart;
}
