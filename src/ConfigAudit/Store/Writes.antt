-- ===== src/ConfigAudit/Store/Writes.antt =====
-- The store of configuration audits as a map from names to reports: what WriteReport does to it, and what
-- FindReportByOwner then finds in it.
use mathlib.Core.List.{Memᴰ}
use starboard.Prelude.{
  String, Bool, true, ◌&&◌, ◌≡◌, ◌↔◌, refl, sym, ◌∙◌, ap, List, [], ◌∷◌, Option, some, none, ok,
  err, Error, ◌==◌, eq_iff, eq_refl, if◌then◌else◌, inl, inr, Bool-cases, Result-cases,
  is_not_found, arith, some_injective, Option-cases,
}
use starboard.Prelude.Action.{fail, reading, handle}
use starboard.Kube.Object.{Labels, ObjectKey, ObjectRef, Hashing}
use starboard.Kube.Reference.{object_ref_to_labels}
use starboard.Kube.Reference.Selection.{selects}
use starboard.Kube.Server.{key_of}
use starboard.ConfigAudit.{ConfigAuditReport, ReportApi, AuditServer}
use starboard.ConfigAudit.Store.{write_report, find_report_by_owner, first}

-- What is stored under each name.
abbrev pub Stored : Type 0
Stored = ObjectKey → Option ConfigAuditReport

abbrev pub same_key : ObjectKey → ObjectKey → Bool
same_key a b = a.name == b.name && a.namespace == b.namespace

key_at : String → String → ObjectKey
key_at name namespace = record { name = name; namespace = namespace }

pub same_key-equal : (a b : ObjectKey) → same_key a b ≡ true → a ≡ b
unfolding key_at
same_key-equal a b h =
    let name = (eq_iff a.name b.name).0 (ground (arith, h)) in
    let namespace = (eq_iff a.namespace b.namespace).0 (ground (arith, h)) in
    ap (λ n. key_at n a.namespace) name ∙ ap (key_at b.name) namespace

pub same_key_refl : (a : ObjectKey) → same_key a a ≡ true
same_key_refl a = rw (eq_refl a.name, eq_refl a.namespace) refl

abbrev pub in_list : Labels → String → ConfigAuditReport → Bool
in_list selector namespace report =
    report.meta.namespace == namespace && selects selector report.meta.labels

-- A report takes the labels and the content of another.
abbrev pub relabelled : ConfigAuditReport → ConfigAuditReport → ConfigAuditReport
relabelled existing report = record {
  meta = record existing.meta { labels = report.meta.labels };
  report = report.report;
}

abbrev pub merged : ConfigAuditReport → Option ConfigAuditReport → ConfigAuditReport
merged report none = report
merged report (some existing) = relabelled existing report

-- The map with one more entry.
abbrev pub set : ConfigAuditReport → Stored → Stored
set report stored key = if same_key (key_of report.meta) key then some report else stored key

-- The abstract write: the report of the name takes the labels and the content, or the report is new.
abbrev pub put : ConfigAuditReport → Stored → Stored
put report stored key =
    if same_key (key_of report.meta) key
    then some (merged report (stored (key_of report.meta)))
    else stored key

-- What the API server documents of the reports of one type: each is stored under its name, a read that succeeds
-- answers with what is stored, a list with those that the selector and the namespace allow, in any order, and
-- a write that succeeds sets the report of its name and no other.
pub record Stores {S : Type 0} (api : ReportApi S) (stored : S → Stored) : Type 0 where
  pub named :
      (key : ObjectKey) (s : S) (report : ConfigAuditReport)
      → stored s key ≡ some report
      → key_of report.meta ≡ key
  pub got :
      (key : ObjectKey) (s : S) (report : ConfigAuditReport)
      → api.get key s ≡ ok report
      → stored s key ≡ some report
  pub missing :
      (key : ObjectKey) (s : S) (e : Error)
      → api.get key s ≡ err e
      → is_not_found e ≡ true
      → stored s key ≡ none
  pub listed :
      (selector : Labels) (namespace : String) (s : S) (reports : List ConfigAuditReport)
      → api.list selector (some namespace) s ≡ ok reports
      → (report : ConfigAuditReport)
      → Memᴰ report reports ↔ (
          (stored s (key_of report.meta) ≡ some report)
          × (in_list selector namespace report ≡ true))
  pub created :
      (report : ConfigAuditReport) (s s' : S)
      → api.create report s ≡ (ok tt, s')
      → (key : ObjectKey) → stored s' key ≡ set report (stored s) key
  pub updated :
      (report : ConfigAuditReport) (s s' : S)
      → api.update report s ≡ (ok tt, s')
      → (key : ObjectKey) → stored s' key ≡ set report (stored s) key

module _ {S : Type 0} (server : AuditServer S) (stored : S → Stored)
    (stores : Stores server.reports stored) where
  -- WriteReport does on the server what the abstract write does on the map, where it succeeds: the report of
  -- the same name takes the labels and the content, or the report is new, and every other name is as before.
  pub write_report-put :
      (report : ConfigAuditReport) (s s' : S)
      → write_report server report s ≡ (ok tt, s')
      → (key : ObjectKey) → stored s' key ≡ put report (stored s) key
  unfolding write_report handle reading fail
  write_report-put report s s' h key =
      elim (Result-cases (server.reports.get (key_of report.meta) s)) [
        | inr (existing, found) ↦
            let there = stores.got (key_of report.meta) s existing found in
            let name = stores.named (key_of report.meta) s existing there in
            let after = stores.updated (relabelled existing report) s s' (rw found at h) key in
            after
            ∙ ap (λ k. if same_key k key then some (relabelled existing report) else stored s key)
                name
            ∙ ap
                (λ o.
                  if same_key (key_of report.meta) key
                  then some (merged report o)
                  else stored s key)
                (sym there)
        | inl (e, failed) ↦ elim (Bool-cases (is_not_found e)) [
          | inl gone ↦
              let absent = stores.missing (key_of report.meta) s e failed gone in
              stores.created report s s' (rw (failed, gone) at h) key
              ∙ ap
                  (λ o.
                    if same_key (key_of report.meta) key
                    then some (merged report o)
                    else stored s key)
                  (sym absent)
          | inr other ↦ absurd (cc (rw (failed, other) at h))
        ]
      ]

  -- A stored report that is listed where the report is has its name: the code counts on one for each owner.
  abbrev pub OnlyOne : Labels → String → ConfigAuditReport → S → Type 0
  OnlyOne selector namespace report s =
      (r : ConfigAuditReport)
      → stored s (key_of r.meta) ≡ some r
      → in_list selector namespace r ≡ true
      → key_of r.meta ≡ key_of report.meta

  -- The key of what a write leaves under the name of the report.
  key_of-merged :
      (report : ConfigAuditReport) (s : S)
      → key_of (merged report (stored s (key_of report.meta))).meta ≡ key_of report.meta
  key_of-merged report s = elim (Option-cases (stored s (key_of report.meta))) [
    | inl absent ↦ rw absent refl
    | inr (existing, there) ↦ rw there (stores.named (key_of report.meta) s existing there)
  ]

  merged-labels :
      (report : ConfigAuditReport) (o : Option ConfigAuditReport)
      → (merged report o).meta.labels ≡ report.meta.labels
  merged-labels report none = refl
  merged-labels report (some existing) = refl

  module _ (selector : Labels) (namespace : String) (report : ConfigAuditReport) (s s' : S)
      (wrote : write_report server report s ≡ (ok tt, s'))
      (listed : in_list selector namespace report ≡ true)
      (one : OnlyOne selector namespace report s) where
    written : ConfigAuditReport
    written = merged report (stored s (key_of report.meta))

    stored_written : stored s' (key_of report.meta) ≡ some written
    unfolding written
    stored_written =
        write_report-put report s s' wrote (key_of report.meta)
        ∙ rw (same_key_refl (key_of report.meta)) refl

    -- Whatever is listed after the write is what was written.
    listed_written :
        (r : ConfigAuditReport)
        → stored s' (key_of r.meta) ≡ some r
        → in_list selector namespace r ≡ true
        → r ≡ written
    listed_written r there place =
        let after = write_report-put report s s' wrote (key_of r.meta) in
        let name : key_of r.meta ≡ key_of report.meta =
          elim (Bool-cases (same_key (key_of report.meta) (key_of r.meta))) [
            | inl same ↦ sym (same_key-equal (key_of report.meta) (key_of r.meta) same)
            | inr other ↦ one r (sym (rw other at after) ∙ there) place
          ] in
        some_injective (sym there ∙ ap (stored s') name ∙ stored_written)

    in_list-written : in_list selector namespace written ≡ true
    unfolding written
    in_list-written =
        rw
          (
            merged-labels report (stored s (key_of report.meta)),
            ap (λ k. k.namespace) (key_of-merged report s),
          )
          listed

    -- The first report that is listed after the write has the labels that were written.
    first-listed :
        (reports : List ConfigAuditReport)
        → server.reports.list selector (some namespace) s' ≡ ok reports
        → (r : ConfigAuditReport) × (first reports ≡ some r) × (r.meta.labels ≡ report.meta.labels)
    unfolding first written
    first-listed reports answered =
        let members = stores.listed selector namespace s' reports answered in
        let there =
          (members written).1
            (ap (stored s') (key_of-merged report s) ∙ stored_written, in_list-written) in
        first_of reports members there
      where
        first_of :
            (rs : List ConfigAuditReport)
            → ((r : ConfigAuditReport)
                → Memᴰ r rs
                  ↔ ((stored s' (key_of r.meta) ≡ some r) × (in_list selector namespace r ≡ true)))
            → Memᴰ written rs
            → (r : ConfigAuditReport) × (first rs ≡ some r) × (r.meta.labels ≡ report.meta.labels)
        first_of [] members m = elim m [ ]
        first_of (r ∷ rs) members m =
            let (there, place) = (members r).0 (Memᴰ.head refl) in
            (
              r,
              refl,
              ap (λ x. x.meta.labels) (listed_written r there place)
                  ∙ merged-labels report (stored s (key_of report.meta)),
            )

  pub find_report_by_owner-write_report :
      (valid_label : String → Bool) (h : Hashing) (owner : ObjectRef) (report : ConfigAuditReport)
      (s s' : S) (reports : List ConfigAuditReport)
      → write_report server report s ≡ (ok tt, s')
      → in_list (object_ref_to_labels valid_label h owner) owner.namespace report ≡ true
      → OnlyOne (object_ref_to_labels valid_label h owner) owner.namespace report s
      → server.reports.list (object_ref_to_labels valid_label h owner) (some owner.namespace) s'
        ≡ ok reports
      → (r : ConfigAuditReport) × (find_report_by_owner server valid_label h owner s' ≡ ok (some r))
        × (r.meta.labels ≡ report.meta.labels)
  unfolding find_report_by_owner
  find_report_by_owner-write_report valid_label h owner report s s' reports wrote listed one
        answered =
      let (r, found, labels) =
        first-listed (object_ref_to_labels valid_label h owner) owner.namespace report s s' wrote
          listed one reports answered in
      (r, rw answered (ap ok found), labels)
