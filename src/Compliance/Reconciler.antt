-- ===== src/Compliance/Reconciler.antt =====
-- When a compliance report is made: pkg/compliance/clustercompliancereport.go.
use starboard.Prelude.{
  String, true, false, ◌≡◌, if◌then◌else◌, Result, ok, err, wrap, wrapped, is_not_found, Error,
}
use starboard.Prelude.Int.{ℤ, ltb_ℤ, ◌-ℤ◌, ◌≤ℤ◌, ◌<ℤ◌}
use starboard.Prelude.Action.{Action, return, fail, reading, handle, ◌>>=◌, ◌>>◌}
use starboard.Kube.Server.{Outcome, done}
use starboard.Operator.Expiry.{duration_exceeded, time_to_expiration}
use starboard.Compliance.{ReportSpec}
use starboard.Compliance.Report.{ComplianceReport, ComplianceServer}

-- reportLastUpdatedTime: the later of the update and the creation.
unfoldable pub report_last_updated_time : ComplianceReport → ℤ
report_last_updated_time report =
    if ltb_ℤ report.status.update_timestamp report.creation_timestamp
    then report.creation_timestamp
    else report.status.update_timestamp

-- `next_cron` is expr.Next of the cron library, on the text and the time it counts from; `generate` is
-- GenerateComplianceReport of the interface Mgr.
module _ {S : Type 0} (server : ComplianceServer S) (next_cron : String → ℤ → Result ℤ)
    (generate : ReportSpec → Action S (Unit {0})) where
  -- utils.NextCronDuration
  unfoldable pub next_cron_duration : String → ℤ → S → Result ℤ
  unfolding time_to_expiration
  next_cron_duration cron creation_time s = elim (next_cron cron creation_time) [
    | err e ↦ err e
    | ok next ↦ ok (time_to_expiration next (server.now s))
  ]

  unfoldable pub run : ReportSpec → Action S Outcome
  run spec = do generate spec; return done

  unfoldable pub generate_if_due : ComplianceReport → Action S Outcome
  unfolding run duration_exceeded
  generate_if_due report = do
    left ← reading (λ s.
        wrap "failed to check report cron expression"
          (next_cron_duration report.spec.cron (report_last_updated_time report) s))
    if duration_exceeded left then run report.spec else return (record { requeue_after = left })

  -- The function that RetryOnConflict is given.
  unfoldable pub attempt : String → Action S Outcome
  unfolding generate_if_due
  attempt name =
      handle (reading (server.get_report name)) generate_if_due
        (λ e. if is_not_found e then return done else fail (wrapped "getting report from cache" e))

  -- generateComplianceReport; `retry` is RetryOnConflict of the client library.
  unfoldable pub reconcile_compliance_report :
      (Action S Outcome → Action S Outcome) → String → Action S Outcome
  unfolding attempt
  reconcile_compliance_report retry name = retry (attempt name)

  -- A stored report with the next time that its schedule fires.
  pub record Scheduled (name : String) (s : S) (report : ComplianceReport) (next : ℤ) : Type 0 where
    pub found : server.get_report name s ≡ ok report
    pub fires : next_cron report.spec.cron (report_last_updated_time report) ≡ ok next

  pub data Attempted (name : String) (s : S) (out : Result Outcome × S) : Type 0 where
    missing :
        (e : Error)
        → server.get_report name s ≡ err e
        → is_not_found e ≡ true
        → out ≡ (ok done, s)
        → Attempted name s out
    unread :
        (e : Error)
        → server.get_report name s ≡ err e
        → is_not_found e ≡ false
        → out ≡ (err (wrapped "getting report from cache" e), s)
        → Attempted name s out
    no_schedule :
        (report : ComplianceReport) (e : Error)
        → server.get_report name s ≡ ok report
        → next_cron report.spec.cron (report_last_updated_time report) ≡ err e
        → out ≡ (err (wrapped "failed to check report cron expression" e), s)
        → Attempted name s out
    waits :
        (report : ComplianceReport) (next left : ℤ)
        → Scheduled name s report next
        → server.now s <ℤ next
        → left ≡ next -ℤ server.now s
        → out ≡ (ok (record { requeue_after = left }), s)
        → Attempted name s out
    generates :
        (report : ComplianceReport) (next : ℤ)
        → Scheduled name s report next
        → next ≤ℤ server.now s
        → out ≡ run report.spec s
        → Attempted name s out
