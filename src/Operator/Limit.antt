-- ===== src/Operator/Limit.antt =====
-- The limit on scan jobs that run at once: pkg/operator/controller/limit_checker.go.
use starboard.Prelude.{
  ◌≡◌, ◌↔◌, false, List, suc, Result-cases, inl, inr, arith, ok_injective, ap, sym, ℕ, String, Bool,
  [], ◌∷◌, Option, none, some, if◌then◌else◌, length, Result, ok, ◌>>=◌,
}
use starboard.Prelude.Int.{pos, leb_ℤ, ◌≤ℤ◌}
use starboard.Constants.{label_k8s_app_managed_by, app_starboard}
use starboard.Kube.Server.{Server, ScanJob}
use starboard.Operator.Config.{Config, ConfigData, vulnerability_scan_jobs_in_same_namespace}

-- The interface that the controllers take: is the limit exceeded, and how many jobs are there?
pub record LimitChecker (S : Type 0) : Type 0 where
  pub check : S → Result (Bool × ℕ)

module _ {S : Type 0} (server : Server S) (config : Config) (settings : ConfigData) where
  unfoldable pub count_scan_jobs : S → Result ℕ
  count_scan_jobs s = do
    let everywhere : Option String = none
    items ←
        server.list_jobs ((label_k8s_app_managed_by, app_starboard) ∷ [])
          (if vulnerability_scan_jobs_in_same_namespace settings
            then everywhere
            else some config.namespace)
          s
    ok (length items)

  unfoldable pub limit_checker : LimitChecker S
  unfolding count_scan_jobs
  limit_checker = record {
    check = λ s. do
      count ← count_scan_jobs s
      ok (leb_ℤ config.concurrent_scan_jobs_limit (pos count), count);
  }

  -- The jobs that the check counts: those that starboard manages, in all namespaces where scan jobs run.
  abbrev scope : Option String
  scope = if vulnerability_scan_jobs_in_same_namespace settings then none else some config.namespace

  -- An answer of the check is about the jobs that are there: it holds their number, and it says that the
  -- limit is not exceeded exactly when there are fewer of them than the limit, so one more job fits.
  pub check_sound :
      (s : S) (full : Bool) (n : ℕ)
      → limit_checker.check s ≡ ok (full, n)
      → ((items : List ScanJob) × (server.list_jobs
              ((label_k8s_app_managed_by, app_starboard) ∷ [])
              scope
              s
            ≡ ok items)
          × (n ≡ length items))
        × ((full ≡ false) ↔ (pos (suc n) ≤ℤ config.concurrent_scan_jobs_limit))
  unfolding limit_checker count_scan_jobs
  check_sound s full n h =
      elim (Result-cases
        (server.list_jobs ((label_k8s_app_managed_by, app_starboard) ∷ []) scope s)) [
          | inl (e, bad) ↦ absurd (cc (rw bad at h))
          | inr (items, got) ↦
              (let counted = ok_injective (rw got at h) in
                let number = sym (ap (λ p. p.1) counted) in
                let answer = ap (λ p. p.0) counted in
                ((items, got, number), ground (arith, number, answer)))
        ]
