-- ===== src/Operator/Expiry.antt =====
-- Reports with a time to live: pkg/operator/controller/ttl_report.go and pkg/utils/dateutil.go. Times are
-- nanoseconds since some instant; that Time.Sub stops at the bounds of 64 bits is left out.
use starboard.Prelude.{
  String, Bool, true, false, ◌≡◌, ◌↔◌, refl, inl, inr, Option, none, some, lookup, Result, ok, err,
  wrapped, is_not_found, if◌then◌else◌, Bool-cases, Option-cases, wrap, wrap_ok, ok_injective,
  Error, arith, ap, subst, ◌+◌,
}
use starboard.Prelude.Int.{
  ℤ, pos, leb_ℤ, ◌+ℤ◌, ◌-ℤ◌, ◌≤ℤ◌, ◌<ℤ◌, pos_part, neg_part, +ℤ_parts, -ℤ_parts,
}
use starboard.Prelude.Action.{
  Action, return, fail, reading, handle, ◌>>=◌, handle-reading, >>=-reading,
}
use starboard.Kube.Object.{ObjectKey}
use starboard.Kube.Server.{Server, Outcome, done, key_of}
use starboard.Report.{VulnerabilityReport, ttl_report_annotation}

unfoldable pub duration_exceeded : ℤ → Bool
duration_exceeded duration = leb_ℤ duration (pos 0)

unfoldable pub time_to_expiration : ℤ → ℤ → ℤ
time_to_expiration expires_at now = expires_at -ℤ now

unfoldable pub is_ttl_expired : ℤ → ℤ → ℤ → Bool × ℤ
unfolding duration_exceeded time_to_expiration
is_ttl_expired ttl creation_time now =
    let duration = time_to_expiration (creation_time +ℤ ttl) now in
    (duration_exceeded duration, duration)

-- A report that is not expired has a positive time left, and it is expired from exactly that time on.
pub is_ttl_expired_when_left :
    (ttl creation_time now left : ℤ)
    → is_ttl_expired ttl creation_time now ≡ (false, left)
    → (pos 0 <ℤ left)
      × ((later : ℤ) → ((is_ttl_expired ttl creation_time later).0 ≡ true) ↔ (now +ℤ left ≤ℤ later))
unfolding is_ttl_expired duration_exceeded time_to_expiration
is_ttl_expired_when_left ttl creation_time now left h =
    let expires = creation_time +ℤ ttl in
    let fresh = ap (λ p. p.0) h in
    let same = ap (λ p. p.1) h in
    let law =
      subst
        (λ d.
          pos_part d + neg_part expires + pos_part now
          ≡ neg_part d + pos_part expires + neg_part now)
        same (-ℤ_parts expires now) in
    let positive = subst (λ d. leb_ℤ d (pos 0) ≡ false) same fresh in
    (
      ground (arith, positive),
      λ later. (
        λ t. ground (arith, t, law, -ℤ_parts expires later, +ℤ_parts now left),
        λ t. ground (arith, t, law, -ℤ_parts expires later, +ℤ_parts now left),
      ),
    )

module _ {S : Type 0} (server : Server S) (parse_duration : String → Result ℤ) (now : S → ℤ) where
  -- Of a report whose time is over.
  unfoldable pub remove_report : VulnerabilityReport → Action S Outcome
  remove_report report =
      handle (server.delete_report (key_of report.meta)) (λ _. return done)
        (λ e. if is_not_found e then return done else fail e)

  -- From the report on, with its annotation.
  unfoldable pub expire : VulnerabilityReport → Option String → Action S Outcome
  unfolding is_ttl_expired remove_report
  expire report none = return done
  expire report (some text) = do
    ttl ← reading (λ s. wrap "failed parsing" (parse_duration text))
    expired ← reading (λ s. ok (is_ttl_expired ttl report.report.update_timestamp (now s)))
    if expired.0 then remove_report report else return (record { requeue_after = expired.1 })

  -- reconcileReport
  unfoldable pub reconcile_report : ObjectKey → Action S Outcome
  unfolding expire
  reconcile_report key =
      handle (reading (server.get_report key))
        (λ report. expire report (lookup ttl_report_annotation report.meta.annotations))
        (λ e. if is_not_found e then return done else fail (wrapped "getting report from cache" e))

  -- The time to live that a stored report is given by its annotation.
  pub record Lives (key : ObjectKey) (s : S) (report : VulnerabilityReport) (ttl : ℤ) : Type 0 where
    pub text : String
    pub found : server.get_report key s ≡ ok report
    pub annotated : lookup ttl_report_annotation report.meta.annotations ≡ some text
    pub parsed : parse_duration text ≡ ok ttl

  pub data Expires (key : ObjectKey) (s : S) (out : Result Outcome × S) : Type 0 where
    stops : out ≡ (ok done, s) → Expires key s out
    fails : (e : Error) → out ≡ (err e, s) → Expires key s out
    waits :
        (report : VulnerabilityReport) (ttl left : ℤ)
        → Lives key s report ttl
        → is_ttl_expired ttl report.report.update_timestamp (now s) ≡ (false, left)
        → out ≡ (ok (record { requeue_after = left }), s)
        → Expires key s out
    removes :
        (report : VulnerabilityReport) (ttl : ℤ)
        → Lives key s report ttl
        → report.report.update_timestamp +ℤ ttl ≤ℤ now s
        → out ≡ remove_report report s
        → Expires key s out

  over :
      (ttl creation_time t left : ℤ)
      → is_ttl_expired ttl creation_time t ≡ (true, left)
      → creation_time +ℤ ttl ≤ℤ t
  unfolding is_ttl_expired duration_exceeded time_to_expiration
  over ttl creation_time t left h =
      ground (arith, ap (λ p. p.0) h, -ℤ_parts (creation_time +ℤ ttl) t)

  expire_cases :
      (key : ObjectKey) (s : S) (report : VulnerabilityReport) (text : String)
      → server.get_report key s ≡ ok report
      → lookup ttl_report_annotation report.meta.annotations ≡ some text
      → Expires key s (expire report (some text) s)
  unfolding expire return
  expire_cases key s report text found annotated =
      >>=-reading (Expires key s) _ _ s
        (λ ttl got.
          >>=-reading (Expires key s) _ _ s
            (λ (expired, left) is. elim (Bool-cases expired) [
              | inl p ↦ rw p (
                  removes report ttl
                    (record {
                      text = text;
                      found = found;
                      annotated = annotated;
                      parsed = wrap_ok _ _ _ got;
                    })
                    (over ttl _ _ left (ok_injective (rw p at is))) refl)
              | inr p ↦ rw p (
                  waits report ttl left
                    (record {
                      text = text;
                      found = found;
                      annotated = annotated;
                      parsed = wrap_ok _ _ _ got;
                    })
                    (ok_injective (rw p at is)) refl)
            ])
            (λ e bad. fails e refl))
        (λ e bad. fails e refl)

  -- A run of the reconciler deletes a report only if the report has a time to live that is over, and asks
  -- to be called again only for a report whose time is not over, after the time that is left.
  pub reconcile_report_cases : (key : ObjectKey) (s : S) → Expires key s (reconcile_report key s)
  unfolding reconcile_report expire return fail
  reconcile_report_cases key s =
      handle-reading (Expires key s) _ _ _ s
        (λ report found.
          elim (Option-cases (lookup ttl_report_annotation report.meta.annotations)) [
            | inl p ↦ rw p (stops refl)
            | inr (text, p) ↦ rw p (expire_cases key s report text found p)
          ])
        (λ e bad. elim (Bool-cases (is_not_found e)) [
          | inl p ↦ rw p (stops refl)
          | inr p ↦ rw p (fails _ refl)
        ])
