-- ===== src/Tests/Slot.antt =====
-- An API server with room for one configuration audit, and audits of the Pod on it.
use mathlib.Core.List.{Memᴰ}
use starboard.Prelude.{
  String, true, ◌≡◌, ◌↔◌, refl, sym, ap, ◌∙◌, subst, List, [], ◌∷◌, Option, none, some, ok, err,
  or_error, status, not_found, already_exists, if◌then◌else◌, Result, ok_injective, some_injective,
  Bool-cases, inl, inr, Error, Option-cases, false≢true, or_error_ok,
}
use starboard.Kube.Object.{ObjectKey, Labels}
use starboard.Kube.Server.{key_of}
use starboard.ConfigAudit.{ConfigAuditReport, ReportApi, AuditServer}
use starboard.ConfigAudit.Store.Writes.{
  Stored, Stores, same_key, same_key-equal, same_key_refl, in_list, set,
}
use starboard.ConfigAudit.Store.{audit_read_writer}
use starboard.ConfigAudit.Resource.{ResourceController}
use starboard.ConfigAudit.Resource.Settled.{IsWired}
use starboard.Tests.Data.{valid_label, hashing}
use starboard.Tests.Policy.{source, rego}
use starboard.Tests.Scans.{config}
use starboard.Tests.Audit.{base, audit_kit, keeps_meta}

-- A server with room for one report, whatever its name.
abbrev pub Slot : Type 0
Slot = Option ConfigAuditReport

abbrev pub held : Slot → Stored
held none key = none
held (some r) key = if same_key (key_of r.meta) key then some r else none

abbrev create_slot : ConfigAuditReport → Slot → Result (Unit {0}) × Slot
create_slot report none = (ok tt, some report)
create_slot report (some r) = (err (status already_exists), some r)

abbrev update_slot : ConfigAuditReport → Slot → Result (Unit {0}) × Slot
update_slot report none = (err (status not_found), none)
update_slot report (some r) =
    if same_key (key_of r.meta) (key_of report.meta)
    then (ok tt, some report)
    else (err (status not_found), some r)

abbrev list_slot : Labels → Option String → Slot → List ConfigAuditReport
list_slot labels namespace none = []
list_slot labels none (some r) = r ∷ []
list_slot labels (some namespace) (some r) = if in_list labels namespace r then r ∷ [] else []

abbrev slot_api : ReportApi Slot
slot_api = record {
  get = λ key s. or_error (held s key) (status not_found);
  list = λ labels namespace s. ok (list_slot labels namespace s);
  create = create_slot;
  update = update_slot;
  delete = λ key s. (ok tt, none);
}

held_named :
    (key : ObjectKey) (s : Slot) (report : ConfigAuditReport)
    → held s key ≡ some report
    → key_of report.meta ≡ key
held_named key none report h = absurd (cc h)
held_named key (some r) report h = elim (Bool-cases (same_key (key_of r.meta) key)) [
  | inl p ↦
      ap (λ x. key_of x.meta) (sym (some_injective (rw p at h)))
      ∙ same_key-equal (key_of r.meta) key p
  | inr p ↦ absurd (cc (rw p at h))
]

held_missing :
    (key : ObjectKey) (s : Slot) (e : Error)
    → or_error (held s key) (status not_found) ≡ err e
    → held s key ≡ none
held_missing key s e h = elim (Option-cases (held s key)) [
  | inl absent ↦ absent
  | inr (r, there) ↦ absurd (cc (rw there at h))
]

Listed : Labels → String → Slot → ConfigAuditReport → Type 0
Listed selector namespace s report =
    (held s (key_of report.meta) ≡ some report) × (in_list selector namespace report ≡ true)

held_same :
    (r report : ConfigAuditReport) → held (some r) (key_of report.meta) ≡ some report → r ≡ report
held_same r report h = elim (Bool-cases (same_key (key_of r.meta) (key_of report.meta))) [
  | inl p ↦ some_injective (rw p at h)
  | inr p ↦ absurd (cc (rw p at h))
]

replaced_key :
    (report r : ConfigAuditReport) (key : ObjectKey)
    → key_of r.meta ≡ key_of report.meta
    → held (some report) key ≡ set report (held (some r)) key
replaced_key report r key e =
    subst
      (λ k. held (some report) key ≡ (
        if same_key (key_of report.meta) key
        then some report
        else (if same_key k key then some r else none)))
      (sym e)
      (elim (Bool-cases (same_key (key_of report.meta) key)) [
        | inl p ↦ rw p refl
        | inr p ↦ rw p refl
      ])

held-Listed :
    (selector : Labels) (namespace : String) (s : Slot) (report : ConfigAuditReport)
    → Memᴰ report (list_slot selector (some namespace) s) ↔ Listed selector namespace s report
unfolding Listed
held-Listed selector namespace none report = (λ m. elim m [ ], λ (h, _). absurd (cc h))
held-Listed selector namespace (some r) report = elim (Bool-cases (in_list selector namespace r)) [
  | inl p ↦ rw p (
    λ m. elim m [
      | Memᴰ.head e ↦
          subst (Listed selector namespace (some r)) (sym e)
            (rw (same_key_refl (key_of r.meta)) refl, p)
      | Memᴰ.tail t ↦ elim t [ ]
    ],
    λ (h, _). Memᴰ.head (sym (held_same r report h)),
  )
  | inr p ↦ rw p (
    λ m. elim m [ ],
    λ (h, place).
        absurd
          (false≢true (sym p ∙ ap (in_list selector namespace) (held_same r report h) ∙ place)),
  )
]

slot_updated :
    (report : ConfigAuditReport) (s s' : Slot)
    → update_slot report s ≡ (ok tt, s')
    → (key : ObjectKey) → held s' key ≡ set report (held s) key
slot_updated report none s' h key = absurd (cc h)
slot_updated report (some r) s' h key =
    elim (Bool-cases (same_key (key_of r.meta) (key_of report.meta))) [
      | inr p ↦ absurd (cc (rw p at h))
      | inl p ↦
          let now : some report ≡ s' = ap (λ x. x.1) (rw p at h) in
          ap (λ x. held x key) (sym now)
          ∙ replaced_key report r key (same_key-equal (key_of r.meta) (key_of report.meta) p)
    ]

slot_created :
    (report : ConfigAuditReport) (s s' : Slot)
    → create_slot report s ≡ (ok tt, s')
    → (key : ObjectKey) → held s' key ≡ set report (held s) key
slot_created report none s' h key = ap (λ x. held x.1 key) (sym h)
slot_created report (some r) s' h key = absurd (cc h)

pub slot_api-Stores : Stores slot_api held
unfolding Listed
slot_api-Stores = record {
  named = held_named;
  got = λ key s report h. or_error_ok _ _ report h;
  missing = λ key s e h _. held_missing key s e h;
  listed = λ selector namespace s reports h report.
      subst (λ rs. Memᴰ report rs ↔ Listed selector namespace s report) (ok_injective h)
        (held-Listed selector namespace s report);
  created = slot_created;
  updated = slot_updated;
}

abbrev pub slot_server : AuditServer Slot
slot_server = record {
  base = base;
  reports = slot_api;
  cluster_reports = slot_api;
  get_config_map = λ key s. ok source;
}

abbrev pub slot_auditor : ResourceController Slot String String
slot_auditor = record {
  config = config;
  server = slot_server;
  read_writer = audit_read_writer slot_server valid_label hashing;
  kit = audit_kit;
  compute_hash = λ policies. "policies-1";
  rego = rego;
  version = "0.15.0";
}

pub slot_wired : IsWired slot_auditor held
slot_wired = record { store = refl; stores = slot_api-Stores; keeps = keeps_meta }
