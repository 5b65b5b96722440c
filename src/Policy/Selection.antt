-- ===== src/Policy/Selection.antt =====
-- Which policies does PoliciesByKind pick?
use starboard.Prelude.{
  String, Bool, true, false, ◌&&◌, ◌||◌, ◌≡◌, refl, List, [], ◌∷◌, Option, none, some, Map, lookup,
  insert, lookup-insert, ◌==◌, eq_iff, if◌then◌else◌, split, has_suffix, ok, bind_ok, ok_injective,
  or_error_ok, or_error, message, Bool-cases, inl, inr, ◌∙◌, sym, ap, arith, concat, trim_suffix,
}
use starboard.Kube.Kind.{is_workload}
use starboard.Policy.{
  Policies, applies, add_for_kind, add_for_kinds, add_policy, lacks_kinds, policy_key_of,
  add_policies, policies_by_kind,
}

-- An item of a list of kinds covers every kind, all workloads, or the kind that it names.
abbrev pub covers : String → String → Bool
covers kind k = k == "*" || (if k == "Workload" then is_workload kind else k == kind)

applies-covers : (kind k : String) → applies kind k ≡ covers kind k
unfolding applies
applies-covers kind k = elim (Bool-cases (k == "Workload")) [
  | inl p ↦ rw ((eq_iff k "Workload").0 p) (ground arith)
  | inr p ↦ rw p (ground arith)
]

abbrev pub any_covers : String → List String → Bool
any_covers kind [] = false
any_covers kind (k ∷ ks) = covers kind k || any_covers kind ks

-- Some entry gives the policy's kinds, and one of them applies.
abbrev pub selected : Policies → String → String → Bool
selected [] kind policy = false
selected ((key, kinds) ∷ entries) kind policy =
    let rest = selected entries kind policy in
    (has_suffix key ".kinds"
      && (concat (trim_suffix key ".kinds") ".rego" == policy
          && any_covers kind (split b',' kinds)))
    || rest

abbrev pub pick : Bool → Option String → Option String → Option String
pick taken code before = if taken then code else before

and_false : (a b : Bool) → b ≡ false → (a && b) ≡ false
and_false true b h = h
and_false false b h = refl

and_true : (a b : Bool) → b ≡ true → (a && b) ≡ a
and_true true b h = h
and_true false b h = refl

-- What an entry that was set reads as.
lookup_picked :
    (source before : Policies) (key policy code : String)
    → lookup key source ≡ some code
    → lookup policy (insert key code before)
      ≡ pick (key == policy) (lookup policy source) (lookup policy before)
lookup_picked source before key policy code there =
    lookup-insert key policy code before ∙ (elim (Bool-cases (key == policy)) [
      | inl same ↦ rw (same, sym ((eq_iff key policy).0 same), there) refl
      | inr other ↦ rw other refl
    ])

add_for_kind-lookup :
    (source : Policies) (kind key k : String) (before after : Map String)
    → add_for_kind source kind key k before ≡ ok after
    → (policy : String)
    → lookup policy after
      ≡ pick (key == policy && covers kind k) (lookup policy source) (lookup policy before)
unfolding add_for_kind
add_for_kind-lookup source kind key k before after h policy = elim (Bool-cases (applies kind k)) [
  | inr off ↦
      rw (sym (applies-covers kind k), off, and_false (key == policy) false refl)
        (ap (lookup policy) (sym (ok_injective (rw off at h))))
  | inl on ↦
      let (code, there, set) =
        bind_ok (or_error (lookup key source) (message "expected policy not found"))
          (λ code. ok (insert key code before)) after (rw on at h) in
      rw (sym (applies-covers kind k), on, and_true (key == policy) true refl)
        (ap (lookup policy) (sym (ok_injective set))
          ∙ lookup_picked source before key policy code (or_error_ok _ _ code there))
]

-- Picking twice from the same code is picking once.
pick_or :
    (key a b : Bool) (code before : Option String)
    → pick (key && b) code (pick (key && a) code before) ≡ pick (key && (a || b)) code before
pick_or true true true code before = refl
pick_or true true false code before = refl
pick_or true false true code before = refl
pick_or true false false code before = refl
pick_or false a b code before = refl

pick_rest :
    (first rest : Bool) (code before : Option String)
    → pick rest code (pick first code before) ≡ pick (first || rest) code before
pick_rest true true code before = refl
pick_rest true false code before = refl
pick_rest false rest code before = refl

add_for_kinds-lookup :
    (source : Policies) (kind key : String) (ks : List String) (before after : Map String)
    → add_for_kinds source kind key ks before ≡ ok after
    → (policy : String)
    → lookup policy after
      ≡ pick (key == policy && any_covers kind ks) (lookup policy source) (lookup policy before)
unfolding add_for_kinds
add_for_kinds-lookup source kind key [] before after h policy =
    rw (and_false (key == policy) false refl) (ap (lookup policy) (sym (ok_injective h)))
add_for_kinds-lookup source kind key (k ∷ ks) before after h policy =
    let (more, one, rest) =
      bind_ok (add_for_kind source kind key k before)
        (λ more. add_for_kinds source kind key ks more) after h in
    add_for_kinds-lookup source kind key ks more after rest policy
    ∙ ap (pick (key == policy && any_covers kind ks) (lookup policy source))
        (add_for_kind-lookup source kind key k before more one policy)
    ∙ pick_or (key == policy) (covers kind k) (any_covers kind ks) (lookup policy source)
        (lookup policy before)

-- The entry with the key gives the policy's kinds, and one of them applies.
abbrev pub selected_by : String → String → String → String → Bool
selected_by key kinds kind policy =
    has_suffix key ".kinds"
    && (concat (trim_suffix key ".kinds") ".rego" == policy && any_covers kind (split b',' kinds))

add_policy-lookup :
    (source : Policies) (kind key kinds : String) (before after : Map String)
    → add_policy source kind key kinds before ≡ ok after
    → (policy : String)
    → lookup policy after
      ≡ pick (selected_by key kinds kind policy) (lookup policy source) (lookup policy before)
unfolding add_policy
add_policy-lookup source kind key kinds before after h policy =
    elim (Bool-cases (lacks_kinds source key)) [
      | inl lacking ↦ absurd (cc (rw lacking at h))
      | inr given ↦ elim (Bool-cases (has_suffix key ".kinds")) [
        | inl kinds_key ↦ rw kinds_key (
            add_for_kinds-lookup source kind (policy_key_of key) (split b',' kinds) before after
              (rw (given, kinds_key) at h) policy)
        | inr other ↦ rw other (ap (lookup policy) (sym (ok_injective (rw (given, other) at h))))
      ]
    ]

add_policies-lookup :
    (source : Policies) (kind : String) (entries : Policies) (before after : Map String)
    → add_policies source kind entries before ≡ ok after
    → (policy : String)
    → lookup policy after
      ≡ pick (selected entries kind policy) (lookup policy source) (lookup policy before)
unfolding add_policies
add_policies-lookup source kind [] before after h policy = ap (lookup policy) (sym (ok_injective h))
add_policies-lookup source kind ((key, kinds) ∷ entries) before after h policy =
    let (more, one, rest) =
      bind_ok (add_policy source kind key kinds before)
        (λ more. add_policies source kind entries more) after h in
    add_policies-lookup source kind entries more after rest policy
    ∙ ap (pick (selected entries kind policy) (lookup policy source))
        (add_policy-lookup source kind key kinds before more one policy)
    ∙ pick_rest (selected_by key kinds kind policy) (selected entries kind policy)
        (lookup policy source) (lookup policy before)

-- When the policies for a kind of object can be had, they are exactly those NAME.rego for which some entry
-- NAME.kinds has among the items of its list the kind, an asterisk, or Workload where the kind is one of
-- a workload; each has the code that the ConfigMap has under its key.
pub policies_by_kind-lookup :
    (source : Policies) (kind : String) (policies : Map String)
    → policies_by_kind source kind ≡ ok policies
    → (policy : String)
    → lookup policy policies ≡ (if selected source kind policy then lookup policy source else none)
unfolding policies_by_kind lookup
policies_by_kind-lookup source kind policies h policy =
    add_policies-lookup source kind source [] policies h policy
