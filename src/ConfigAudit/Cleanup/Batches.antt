-- ===== src/ConfigAudit/Cleanup/Batches.antt =====
-- The runs of the deletion in batches, and what they leave.
use starboard.Prelude.{
  String, ℕ, zero, suc, ◌+◌, ◌*◌, ◌≤◌, ◌<◌, true, false, ◌≡◌, ◌∙◌, sym, ap, refl, List, [], ◌∷◌,
  Map, length, take, drop, length-take, length-take_short, drop_all, ltb, if◌then◌else◌, Result, ok,
  arith, Bool-cases, inl, inr, wrap,
}
use starboard.Prelude.Int.{ℤ, pos, ltb_ℤ, pos_part, ◌+ℤ◌, ◌-ℤ◌, ◌<ℤ◌}
use starboard.Prelude.Action.{return, reading, handle, ◌>>=◌, >>=-ok, handle-reading_ok}
use starboard.Kube.Object.{ObjectKey}
use starboard.Kube.Server.{Outcome, done, key_of}
use starboard.Operator.Config.{Config}
use starboard.ConfigAudit.{ConfigAuditReport, ReportApi, AuditServer}
use starboard.ConfigAudit.Cleanup.{
  min_int, outdated_selector, delete_first, delete_batch, delete_outdated, clean_up,
}

abbrev pub report_keys : List ConfigAuditReport → List ObjectKey
report_keys [] = []
report_keys (r ∷ rs) = key_of r.meta ∷ report_keys rs

length-report_keys : (rs : List ConfigAuditReport) → length (report_keys rs) ≡ length rs
length-report_keys [] = refl
length-report_keys (r ∷ rs) = ap suc (length-report_keys rs)

abbrev pub first_or : ObjectKey → List ObjectKey → ObjectKey
first_or k [] = k
first_or k (x ∷ xs) = x

abbrev pub rest_of : List ObjectKey → List ObjectKey
rest_of [] = []
rest_of (x ∷ xs) = xs

min_low : (a b : ℕ) → a ≤ b → pos_part (min_int (pos a) (pos b)) ≡ a
min_low a b h = ground arith

min_high : (a b : ℕ) → b ≤ a → pos_part (min_int (pos a) (pos b)) ≡ b
min_high a b h = ground arith

some_left : (a b : ℕ) → a < b → ltb_ℤ (pos 0) (pos b -ℤ pos a) ≡ true
unfolding ◌-ℤ◌
some_left a b h = ground arith

none_left : (a b : ℕ) → b ≤ a → ltb_ℤ (pos 0) (pos b -ℤ pos a) ≡ false
unfolding ◌-ℤ◌
none_left a b h = ground arith

module _ {S L : Type 0} (config : Config) (limit : ℕ) (parse : String → Result L)
    (list_limited : L → ℤ → S → Result (List ConfigAuditReport)) (server : AuditServer S)
    (api : ReportApi S) (read_hash : S → Result String) (kind : String) (key : ObjectKey)
    (outdated : S → List ObjectKey) where
  -- The documented behaviour of the server, where nothing else runs: the configuration can be read and has one
  -- hash, a list with a positive limit answers with the first of the outdated reports, and a delete of the first
  -- of them takes it away. The limit is that of the operator's settings.
  pub record Answers : Type 0 where
    pub config_hash : String
    pub selector : L
    pub config_map : Map String
    pub limited : config.batch_delete_limit ≡ pos limit
    pub configured : (s : S) → server.get_config_map key s ≡ ok config_map
    pub hashed : (s : S) → read_hash s ≡ ok config_hash
    pub parsed : parse (outdated_selector config_hash kind) ≡ ok selector
    pub listed :
        (n : ℕ) (s : S)
        → 1 ≤ n
        → (reports : List ConfigAuditReport) × (list_limited selector (pos n) s ≡ ok reports)
          × (report_keys reports ≡ take n (outdated s))
    pub deleted :
        (k : ObjectKey) (rest : List ObjectKey) (s : S)
        → outdated s ≡ k ∷ rest
        → (s' : S) × (api.delete k s ≡ (ok tt, s')) × (outdated s' ≡ rest)

  module _ (answers : Answers) where
    delete_first-drop :
        (n m : ℕ) (reports : List ConfigAuditReport) (ks : List ObjectKey) (s : S)
        → outdated s ≡ ks
        → report_keys reports ≡ take m ks
        → n ≤ length reports
        → (s' : S) × (delete_first config api n reports s ≡ (ok tt, s')) × (outdated s' ≡ drop n ks)
    unfolding delete_first return handle
    delete_first-drop zero m reports ks s at_s same enough = (s, refl, at_s)
    delete_first-drop (suc n) m [] ks s at_s same enough = absurd (omega (arith, enough))
    delete_first-drop (suc n) zero (r ∷ rs) ks s at_s same enough = absurd (cc same)
    delete_first-drop (suc n) (suc m) (r ∷ rs) [] s at_s same enough = absurd (cc same)
    delete_first-drop (suc n) (suc m) (r ∷ rs) (k ∷ ks) s at_s same enough =
        let here = ap (first_or k) same in
        let (t, gone, left) = answers.deleted k ks s at_s in
        let (s', ran, after) =
          delete_first-drop n m rs ks t left (ap rest_of same) (omega (arith, enough)) in
        (s', rw (here, gone) ran, after)

    -- What a batch answers, by how many reports were outdated before it.
    abbrev pub batch_outcome : ℕ → Outcome
    batch_outcome n =
        if ltb limit n then record { requeue_after = config.batch_delete_delay } else done

    delete_batch-drop :
        (reports : List ConfigAuditReport) (s : S)
        → report_keys reports ≡ take (suc limit) (outdated s)
        → (s' : S) × (delete_batch config api reports s
            ≡ (ok (batch_outcome (length (outdated s))), s'))
          × (outdated s' ≡ drop limit (outdated s))
    unfolding delete_batch ◌>>=◌ handle return
    delete_batch-drop reports s same =
        let count = sym (length-report_keys reports) ∙ ap length same in
        elim (Bool-cases (ltb limit (length (outdated s)))) [
          | inl more ↦
              let n = count ∙ length-take_short (suc limit) (outdated s) (ground arith) in
              let (s', ran, left) =
                delete_first-drop limit (suc limit) reports (outdated s) s refl same
                  (omega (arith, n)) in
              (
                s',
                rw
                    (
                      answers.limited,
                      min_low limit (length reports) (omega (arith, n)),
                      ran,
                      some_left limit (length reports) (omega (arith, n)),
                      more,
                    )
                    refl,
                left,
              )
          | inr few ↦
              let short : length (outdated s) ≤ limit = ground arith in
              let n = count ∙ length-take (suc limit) (outdated s) (omega (arith, short)) in
              let (s', ran, left) =
                delete_first-drop (length reports) (suc limit) reports (outdated s) s refl same
                  (omega arith) in
              (
                s',
                rw
                    (
                      answers.limited,
                      min_high limit (length reports) (omega (arith, n, short)),
                      ran,
                      none_left limit (length reports) (omega (arith, n, short)),
                      few,
                    )
                    refl,
                left
                    ∙ drop_all (length reports) (outdated s) (omega (arith, n))
                    ∙ sym (drop_all limit (outdated s) short),
              )
        ]

    one_more : config.batch_delete_limit +ℤ pos 1 ≡ pos (suc limit)
    unfolding ◌+ℤ◌
    one_more = rw answers.limited (ground arith)

    delete_outdated-drop :
        (s : S)
        → (s' : S) × (delete_outdated config parse list_limited api kind answers.config_hash s
            ≡ (ok (batch_outcome (length (outdated s))), s'))
          × (outdated s' ≡ drop limit (outdated s))
    unfolding delete_outdated reading
    delete_outdated-drop s =
        let (reports, got, same) = answers.listed (suc limit) s (omega arith) in
        let (s', ran, left) = delete_batch-drop reports s same in
        (
          s',
          >>=-ok
                (reading (λ x.
                  wrap "parsing label selector"
                    (parse (outdated_selector answers.config_hash kind))))
                _ s s answers.selector (rw answers.parsed refl)
              ∙ >>=-ok
                  (reading (λ x.
                    wrap "listing reports"
                      (list_limited answers.selector (config.batch_delete_limit +ℤ pos 1) x)))
                  (delete_batch config api) s s reports (rw (one_more, got) refl)
              ∙ ran,
          left,
        )

    -- One run deletes as many of the first outdated reports as the limit allows, and asks to be called again
    -- exactly when some are left.
    pub clean_up-drop :
        (s : S)
        → (s' : S) × (clean_up config parse list_limited server api read_hash kind key s
            ≡ (ok (batch_outcome (length (outdated s))), s'))
          × (outdated s' ≡ drop limit (outdated s))
    unfolding clean_up reading
    clean_up-drop s =
        let (s', ran, left) = delete_outdated-drop s in
        (
          s',
          handle-reading_ok {0, 0} (server.get_config_map key) _ _ s answers.config_map
                (answers.configured s)
              ∙ >>=-ok (reading read_hash) (delete_outdated config parse list_limited api kind) s s
                  answers.config_hash (ap (λ r. (r, s)) (answers.hashed s))
              ∙ ran,
          left,
        )

    -- Runs, each called since the one before asked for it, and their number.
    pub data Runs : S → ℕ → S → Type 0 where
      last :
          {s s' : S}
          → clean_up config parse list_limited server api read_hash kind key s ≡ (ok done, s')
          → Runs s 1 s'
      again :
          {s t s' : S} {n : ℕ} (out : Outcome)
          → clean_up config parse list_limited server api read_hash kind key s ≡ (ok out, t)
          → pos 0 <ℤ out.requeue_after
          → Runs t n s'
          → Runs s (suc n) s'

    -- The runs from a state on, as many as the batches that are left.
    abbrev pub EndsFrom : S → Type 0
    EndsFrom s =
        (n : ℕ) × (s' : S) × Runs s n s'
        × (outdated s' ≡ [])
        × (limit * n ≤ length (outdated s) + limit)
