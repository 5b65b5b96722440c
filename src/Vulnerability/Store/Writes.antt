-- ===== src/Vulnerability/Store/Writes.antt =====
-- Writing reports: what the server holds after Write has succeeded.
use starboard.Prelude.{
  ◌≡◌, ◌≢◌, refl, sym, ◌∙◌, ap, subst, List, [], ◌∷◌, All, ok, Result-cases, inl, inr, Bool-cases,
  is_not_found,
}
use starboard.Prelude.Action.{return, fail, reading, handle, handle-fail_ok}
use starboard.Kube.Object.{ObjectKey}
use starboard.Kube.Server.{Server, key_of}
use starboard.Report.{VulnerabilityReport}
use starboard.Vulnerability.Store.{create_or_update, write}

-- The API server as storage of reports: it answers with the object of the name that is asked for, and a
-- write that succeeds sets that object and no other.
pub record Storage {S : Type 0} (server : Server S) : Type 0 where
  pub named :
      (key : ObjectKey) (s : S) (rep : VulnerabilityReport)
      → server.get_report key s ≡ ok rep
      → key_of rep.meta ≡ key
  pub created :
      (rep : VulnerabilityReport) (s s' : S)
      → server.create_report rep s ≡ (ok tt, s')
      → server.get_report (key_of rep.meta) s' ≡ ok rep
  pub created_only :
      (rep : VulnerabilityReport) (s s' : S) (key : ObjectKey)
      → server.create_report rep s ≡ (ok tt, s')
      → key_of rep.meta ≢ key
      → server.get_report key s' ≡ server.get_report key s
  pub updated :
      (rep : VulnerabilityReport) (s s' : S)
      → server.update_report rep s ≡ (ok tt, s')
      → server.get_report (key_of rep.meta) s' ≡ ok rep
  pub updated_only :
      (rep : VulnerabilityReport) (s s' : S) (key : ObjectKey)
      → server.update_report rep s ≡ (ok tt, s')
      → key_of rep.meta ≢ key
      → server.get_report key s' ≡ server.get_report key s

abbrev pub Distinct : List VulnerabilityReport → Type 0
Distinct [] = Unit {0}
Distinct (rep ∷ reps) = All (λ other. key_of rep.meta ≢ key_of other.meta) reps × Distinct reps

-- An existing report with the new labels and content.
abbrev relabelled : VulnerabilityReport → VulnerabilityReport → VulnerabilityReport
relabelled existing rep = record {
  meta = record existing.meta { labels = rep.meta.labels };
  report = rep.report;
}

module _ {S : Type 0} (server : Server S) (storage : Storage server) where
  -- The server has the report's content and labels under the report's name.
  pub record Holds (s : S) (rep : VulnerabilityReport) : Type 0 where
    pub stored : VulnerabilityReport
    pub got : server.get_report (key_of rep.meta) s ≡ ok stored
    pub content : stored.report ≡ rep.report
    pub labels : stored.meta.labels ≡ rep.meta.labels

  -- A write of one report.
  record Written (rep : VulnerabilityReport) (s s' : S) : Type 0 where
    holds : Holds s' rep
    others :
        (key : ObjectKey)
        → key_of rep.meta ≢ key
        → server.get_report key s' ≡ server.get_report key s

  create_or_update_lem :
      (rep : VulnerabilityReport) (s s' : S)
      → create_or_update server rep s ≡ (ok tt, s')
      → Written rep s s'
  unfolding create_or_update handle reading fail
  create_or_update_lem rep s s' h = elim (Result-cases (server.get_report (key_of rep.meta) s)) [
    | inl (e, missing) ↦ elim (Bool-cases (is_not_found e)) [
      | inl p ↦
          let ran = rw (missing, p) at h in
          record {
            holds = record {
              stored = rep;
              got = storage.created rep s s' ran;
              content = refl;
              labels = refl;
            };
            others = λ key apart. storage.created_only rep s s' key ran apart;
          }
      | inr p ↦ absurd (cc (rw (missing, p) at h))
    ]
    | inr (existing, found) ↦
        let ran = rw found at h in
        let same = storage.named _ s existing found in
        record {
          holds = record {
            stored = relabelled existing rep;
            got =
                subst (λ key. server.get_report key s' ≡ ok (relabelled existing rep)) same
                  (storage.updated (relabelled existing rep) s s' ran);
            content = refl;
            labels = refl;
          };
          others = λ key apart.
              storage.updated_only (relabelled existing rep) s s' key ran
                (λ e. apart (sym same ∙ e));
        }
  ]

  write_others :
      (reps : List VulnerabilityReport) (s s' : S) (key : ObjectKey)
      → write server reps s ≡ (ok tt, s')
      → All (λ rep. key_of rep.meta ≢ key) reps
      → server.get_report key s' ≡ server.get_report key s
  unfolding write return
  write_others [] s s' key h apart = ap (λ p. server.get_report key p.1) (sym h)
  write_others (rep ∷ reps) s s' key h (here, apart) =
      let (_, t, one, rest) = handle-fail_ok _ _ s s' tt h in
      write_others reps t s' key rest apart ∙ (create_or_update_lem rep s t one).others key here

  stored_before :
      (rep : VulnerabilityReport) (s s' : S)
      → server.get_report (key_of rep.meta) s' ≡ server.get_report (key_of rep.meta) s
      → Holds s rep
      → Holds s' rep
  stored_before rep s s' same holds = record {
    stored = holds.stored;
    got = same ∙ holds.got;
    content = holds.content;
    labels = holds.labels;
  }

  apart_sym :
      (key : ObjectKey) (reps : List VulnerabilityReport)
      → All (λ rep. key ≢ key_of rep.meta) reps
      → All (λ rep. key_of rep.meta ≢ key) reps
  apart_sym key [] _ = tt
  apart_sym key (rep ∷ reps) (here, rest) = (λ e. here (sym e), apart_sym key reps rest)

  write-All :
      (reps : List VulnerabilityReport) (s s' : S)
      → Distinct reps
      → write server reps s ≡ (ok tt, s')
      → All (Holds s') reps
  unfolding write
  write-All [] s s' _ h = tt
  write-All (rep ∷ reps) s s' (apart, distinct) h =
      let (_, t, one, rest) = handle-fail_ok _ _ s s' tt h in
      (
        stored_before rep t s'
            (write_others reps t s' (key_of rep.meta) rest (apart_sym (key_of rep.meta) reps apart))
            (create_or_update_lem rep s t one).holds,
        write-All reps t s' distinct rest,
      )

  -- After a successful write of reports with names of their own, the server has them all, with their content
  -- and their labels; a report of any other name is as before.
  pub write-Holds :
      (reps : List VulnerabilityReport) (s s' : S)
      → Distinct reps
      → write server reps s ≡ (ok tt, s')
      → All (Holds s') reps
        × ((key : ObjectKey)
            → All (λ rep. key_of rep.meta ≢ key) reps
            → server.get_report key s' ≡ server.get_report key s)
  write-Holds reps s s' distinct h =
      (write-All reps s s' distinct h, λ key apart. write_others reps s s' key h apart)
