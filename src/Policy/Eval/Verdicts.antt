-- ===== src/Policy/Eval/Verdicts.antt =====
-- Eval: which verdict does it give for each policy?
use starboard.Prelude.{
  String, suc, Bool, true, false, ◌≡◌, refl, ◌⊎◌, List, [], ◌∷◌, ◌++◌, some, Map, insert, concat,
  length, Result, ok, wrap, wrap_ok, append-nil, append_assoc, ◌==◌, bind_ok, Bool-cases, inl, inr,
  ap, ◌∙◌, sym, subst, ok_injective,
}
use starboard.Policy.{Policies, libraries, policies_by_kind}
use starboard.Policy.Eval.{
  ResultSet, Metadata, Verdict, Engine, verdicts_from, verdicts_of, judge, metadata_of, passed,
  eval_policy, eval_policies, eval, parse_libraries,
}
use starboard.Policy.Eval.Bindings.{AllObjects, FailedBy, verdicts_from_cases}

module _ {Module Compiler R : Type 0} (rego : Engine Module Compiler R) where
  -- The results of a rule of the policy.
  abbrev pub rows_of : Compiler → R → String → String → Result ResultSet
  rows_of compiler resource path rule =
      rego.query compiler (concat path (concat "." (concat rule "[res]"))) (some resource)

  abbrev pub Fires : Compiler → R → String → String → Metadata → List Verdict → Type 0
  Fires compiler resource path rule md vs =
      (rows : ResultSet) × (rows_of compiler resource path rule ≡ ok rows)
      × AllObjects "res" rows
      × FailedBy md rows vs

  abbrev pub Silent : Compiler → R → String → String → Type 0
  Silent compiler resource path rule =
      (rows : ResultSet) × (rows_of compiler resource path rule ≡ ok rows)
      × (¬ AllObjects "res" rows)

  -- The deny rule fires, or else the warn rule, or else it is one success without messages.
  abbrev pub Judged : Compiler → R → String → Metadata → List Verdict → Type 0
  Judged compiler resource path md vs =
      Fires compiler resource path "deny" md vs
      ⊎ (Silent compiler resource path "deny"
          × (Fires compiler resource path "warn" md vs
              ⊎ (Silent compiler resource path "warn"
                  × (vs ≡ record { metadata = md; success = true; messages = [] } ∷ []))))

  verdicts_of_cases :
      (compiler : Compiler) (md : Metadata) (resource : R) (path rule : String) (vs : List Verdict)
      (fired : Bool)
      → verdicts_of rego compiler md resource path rule ≡ ok (vs, fired)
      → ((fired ≡ true) × Fires compiler resource path rule md vs)
        ⊎ ((fired ≡ false) × Silent compiler resource path rule)
  unfolding verdicts_of
  verdicts_of_cases compiler md resource path rule vs fired h =
      let (rows, got, from) =
        bind_ok
          (wrap (concat "failed evaluating Rego " (concat rule " rule"))
            (rows_of compiler resource path rule))
          (verdicts_from md rule) (vs, fired) h in
      let there = wrap_ok _ _ rows got in
      elim (verdicts_from_cases md rule rows vs fired from) [
        | inl (f, all, failed) ↦ inl (f, (rows, there, all, failed))
        | inr (f, partial) ↦ inr (f, (rows, there, partial))
      ]

  judge_cases :
      (compiler : Compiler) (md : Metadata) (resource : R) (path : String) (vs : List Verdict)
      → judge rego compiler md resource path ≡ ok vs
      → Judged compiler resource path md vs
  unfolding judge passed
  judge_cases compiler md resource path vs h =
      let ((dv, df), denied, h1) =
        bind_ok (verdicts_of rego compiler md resource path "deny") _ vs h in
      elim (verdicts_of_cases compiler md resource path "deny" dv df denied) [
        | inl (f, fires) ↦
            inl (subst (Fires compiler resource path "deny" md) (ok_injective (rw f at h1)) fires)
        | inr (f, silent) ↦
            let ((wv, wf), warned, h2) =
              bind_ok (verdicts_of rego compiler md resource path "warn") _ vs (rw f at h1) in
            inr (
              silent,
              (elim (verdicts_of_cases compiler md resource path "warn" wv wf warned) [
                | inl (g, fires) ↦ inl (
                    subst (Fires compiler resource path "warn" md) (ok_injective (rw g at h2))
                      fires)
                | inr (g, quiet) ↦ inr (quiet, sym (ok_injective (rw g at h2)))
              ]),
            )
      ]

  abbrev pub JudgedPolicy : Policies → R → String → String → List Verdict → Type 0
  JudgedPolicy source resource name code vs =
      (policy : Module) × (modules : Map Module) × (compiler : Compiler) × (md : Metadata)
      × (rego.parse_module name code ≡ ok policy)
      × (parse_libraries rego (libraries source) [] ≡ ok modules)
      × (rego.compile (insert name policy modules) ≡ ok compiler)
      × (metadata_of rego compiler (rego.package_path policy) ≡ ok md)
      × Judged compiler resource (rego.package_path policy) md vs

  -- One verdict for each policy, in their order.
  abbrev pub AllJudged : Policies → R → Map String → List Verdict → Type 0
  AllJudged source resource [] vs = vs ≡ []
  AllJudged source resource ((name, code) ∷ policies) vs =
      (v : Verdict) × (rest : List Verdict) × (vs ≡ v ∷ rest)
      × JudgedPolicy source resource name code (v ∷ [])
      × AllJudged source resource policies rest

  Judged-one :
      (compiler : Compiler) (resource : R) (path : String) (md : Metadata) (vs : List Verdict)
      → Judged compiler resource path md vs
      → (v : Verdict) × (vs ≡ v ∷ [])
  Judged-one compiler resource path md vs (inl (_, _, _, (messages, _, e))) = (_, e)
  Judged-one compiler resource path md vs (inr (_, inl (_, _, _, (messages, _, e)))) = (_, e)
  Judged-one compiler resource path md vs (inr (_, inr (_, e))) = (_, e)

  eval_policy-JudgedPolicy :
      (source : Policies) (resource : R) (name code : String) (vs : List Verdict)
      → eval_policy rego source resource name code ≡ ok vs
      → (v : Verdict) × (vs ≡ v ∷ []) × JudgedPolicy source resource name code (v ∷ [])
  unfolding eval_policy
  eval_policy-JudgedPolicy source resource name code vs h =
      let (modules, h1, k1) = bind_ok (parse_libraries rego (libraries source) []) _ vs h in
      let (policy, h2, k2) = bind_ok (wrap _ (rego.parse_module name code)) _ vs k1 in
      let (compiler, h3, k3) =
        bind_ok (wrap _ (rego.compile (insert name policy modules))) _ vs k2 in
      let (md, h4, k4) = bind_ok (metadata_of rego compiler (rego.package_path policy)) _ vs k3 in
      let judged = judge_cases compiler md resource (rego.package_path policy) vs k4 in
      let (v, one) = Judged-one compiler resource (rego.package_path policy) md vs judged in
      (
        v,
        one,
        (
          policy,
          modules,
          compiler,
          md,
          wrap_ok _ _ policy h2,
          h1,
          wrap_ok _ _ compiler h3,
          h4,
          subst (Judged compiler resource (rego.package_path policy) md) one judged,
        ),
      )

  eval_policies-AllJudged :
      (source : Policies) (resource : R) (policies : Map String) (before vs : List Verdict)
      → eval_policies rego source resource policies before ≡ ok vs
      → (new : List Verdict) × (vs ≡ before ++ new)
        × (length new ≡ length policies)
        × AllJudged source resource policies new
  unfolding eval_policies
  eval_policies-AllJudged source resource [] before vs h =
      ([], sym (ok_injective h) ∙ sym (append-nil before), refl, refl)
  eval_policies-AllJudged source resource ((name, code) ∷ policies) before vs h =
      let (more, h1, k1) = bind_ok (eval_policy rego source resource name code) _ vs h in
      let (v, one, judged) = eval_policy-JudgedPolicy source resource name code more h1 in
      let (new, e, l, rest) =
        eval_policies-AllJudged source resource policies (before ++ more) vs k1 in
      (
        v ∷ new,
        e ∙ append_assoc before more new ∙ ap (λ m. before ++ (m ++ new)) one,
        ap suc l,
        (v, new, refl, judged, rest),
      )

  -- When Eval succeeds, it gives exactly one verdict for each of the policies for the kind of the resource, in
  -- their order: a failure if each result of the deny rule is an object and there is one, with a message
  -- for each result, or else the same for the warn rule, or else a success without messages.
  pub eval-AllJudged :
      (source : Policies) (kind_of : R → String) (resource : R) (vs : List Verdict)
      → eval rego source kind_of (some resource) ≡ ok vs
      → (policies : Map String) × (policies_by_kind source (kind_of resource) ≡ ok policies)
        × (length vs ≡ length policies)
        × AllJudged source resource policies vs
  unfolding eval
  eval-AllJudged source kind_of resource vs h = elim (Bool-cases (kind_of resource == "")) [
    | inl blank ↦ absurd (cc (rw blank at h))
    | inr named ↦
        let (policies, h1, k1) =
          bind_ok (wrap _ (policies_by_kind source (kind_of resource))) _ vs (rw named at h) in
        let (new, e, l, judged) = eval_policies-AllJudged source resource policies [] vs k1 in
        (
          policies,
          wrap_ok _ _ policies h1,
          ap length e ∙ l,
          subst (AllJudged source resource policies) (sym e) judged,
        )
  ]
