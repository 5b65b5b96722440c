-- ===== src/Policy/Eval/Bindings.antt =====
-- hasBindings and valuesToResults: when do the results of a rule count?
use starboard.Prelude.{
  String, ℕ, ◌≤◌, suc, Bool, true, false, ◌≡◌, refl, ◌↔◌, ◌⊎◌, List, [], ◌∷◌, Option, none, some,
  Map, lookup, concat, nat_eq, length, ok, wrap, wrap_ok, ◌>>=◌, bind_ok, Bool-cases, inl, inr, All,
  arith, ap, ◌∙◌, sym, ok_injective, false≢true,
}
use starboard.Policy.Eval.{
  Fields, Binding, object, no_object, ResultSet, Metadata, Verdict, has_bindings, binding_values,
  add_binding, values_to_results, verdicts_from, add_messages, new_message,
}

abbrev pub IsObject : Option Binding → Type 0
IsObject bound = (fields : Fields) × (bound ≡ some (object fields))

abbrev pub BindsObject : String → Map Binding → Type 0
BindsObject key row = IsObject (lookup key row)

-- There are results, and each binds the variable to an object.
abbrev pub AllObjects : String → ResultSet → Type 0
AllObjects key [] = ⊥
AllObjects key (row ∷ rows) = BindsObject key row × All (BindsObject key) rows

-- A value is added exactly for an object.
length-add_binding :
    (o : Option Binding) (values : List Fields)
    → (IsObject o × (length (add_binding o values) ≡ suc (length values)))
      ⊎ ((¬ IsObject o) × (length (add_binding o values) ≡ length values))
unfolding add_binding
length-add_binding none values = inr ((λ b. absurd (cc b.1)), refl)
length-add_binding (some no_object) values = inr ((λ b. absurd (cc b.1)), refl)
length-add_binding (some (object fields)) values = inl ((fields, refl), refl)

binding_values_bound :
    (rows : ResultSet) (key : String) → length (binding_values rows key) ≤ length rows
unfolding binding_values
binding_values_bound [] key = omega arith
binding_values_bound (row ∷ rows) key =
    let bound = binding_values_bound rows key in
    elim (length-add_binding (lookup key row) (binding_values rows key)) [
      | inl (is_object, l) ↦ omega (arith, l, bound)
      | inr (not_object, l) ↦ omega (arith, l, bound)
    ]

binding_values_complete :
    (rows : ResultSet) (key : String)
    → All (BindsObject key) rows
    → length (binding_values rows key) ≡ length rows
unfolding binding_values
binding_values_complete [] key h = refl
binding_values_complete (row ∷ rows) key (binds, h) =
    elim (length-add_binding (lookup key row) (binding_values rows key)) [
      | inl (is_object, l) ↦ l ∙ ap suc (binding_values_complete rows key h)
      | inr (not_object, l) ↦ absurd (not_object binds)
    ]

binding_values-All :
    (rows : ResultSet) (key : String)
    → length (binding_values rows key) ≡ length rows
    → All (BindsObject key) rows
unfolding binding_values
binding_values-All [] key h = tt
binding_values-All (row ∷ rows) key h =
    elim (length-add_binding (lookup key row) (binding_values rows key)) [
      | inl (is_object, l) ↦ (is_object, binding_values-All rows key (omega (arith, h, l)))
      | inr (not_object, l) ↦ absurd (omega (arith, h, l, binding_values_bound rows key))
    ]

nat_eq_iff : (a b : ℕ) → (nat_eq a b ≡ true) ↔ (a ≡ b)
nat_eq_iff a b = ((λ h. ground arith), (λ h. ground arith))

-- hasBindings says true exactly when there are results and each binds the variable to an object.
has_bindings_iff :
    (rows : ResultSet) (key : String) → ((has_bindings rows key).1 ≡ true) ↔ AllObjects key rows
unfolding has_bindings
has_bindings_iff [] key = ((λ h. absurd (false≢true h)), (λ h. absurd h))
has_bindings_iff (row ∷ rows) key = (
  (λ h. binding_values-All (row ∷ rows) key (sym ((nat_eq_iff _ _).0 h))),
  (λ h. (nat_eq_iff _ _).1 (sym (binding_values_complete (row ∷ rows) key h))),
)

length-add_messages :
    (values : List Fields) (messages : List String)
    → add_messages values ≡ ok messages
    → length messages ≡ length values
unfolding add_messages
length-add_messages [] messages h = ap length (sym (ok_injective h))
length-add_messages (value ∷ values) messages h =
    let (first, _, h1) =
      bind_ok (new_message (some value))
        (λ first. add_messages values >>= (λ rest. ok (first ∷ rest))) messages h in
    let (rest, h2, h3) = bind_ok (add_messages values) (λ rest. ok (first ∷ rest)) messages h1 in
    ap length (sym (ok_injective h3)) ∙ ap suc (length-add_messages values rest h2)

length-has_bindings :
    (rows : ResultSet) (key : String)
    → AllObjects key rows
    → length (has_bindings rows key).0 ≡ length rows
unfolding has_bindings
length-has_bindings [] key h = absurd h
length-has_bindings (row ∷ rows) key h = binding_values_complete (row ∷ rows) key h

-- A failure, with a message for each result.
abbrev pub FailedBy : Metadata → ResultSet → List Verdict → Type 0
FailedBy md rows vs =
    (messages : List String) × (length messages ≡ length rows)
    × (vs ≡ record { metadata = md; success = false; messages = messages } ∷ [])

values_to_results_ok :
    (md : Metadata) (values : List Fields) (vs : List Verdict)
    → values_to_results md values ≡ ok vs
    → (messages : List String) × (length messages ≡ length values)
      × (vs ≡ record { metadata = md; success = false; messages = messages } ∷ [])
unfolding values_to_results
values_to_results_ok md values vs h =
    let (messages, added, made) =
      bind_ok (add_messages values)
        (λ messages. ok (record { metadata = md; success = false; messages = messages } ∷ [])) vs
        h in
    (messages, length-add_messages values messages added, sym (ok_injective made))

pub verdicts_from_cases :
    (md : Metadata) (rule : String) (rows : ResultSet) (vs : List Verdict) (fired : Bool)
    → verdicts_from md rule rows ≡ ok (vs, fired)
    → ((fired ≡ true) × AllObjects "res" rows × FailedBy md rows vs)
      ⊎ ((fired ≡ false) × (¬ AllObjects "res" rows))
unfolding verdicts_from
verdicts_from_cases md rule rows vs fired h =
    let (only_if, so) = has_bindings_iff rows "res" in
    elim (Bool-cases (has_bindings rows "res").1) [
      | inr partial ↦ inr (
        ap (λ p. p.1) (sym (ok_injective (rw partial at h))),
        (λ all. false≢true (sym partial ∙ so all)),
      )
      | inl complete ↦
          let (results, wrapped, pair) =
            bind_ok
              (wrap (concat "failed parsing " (concat rule " rule result"))
                (values_to_results md (has_bindings rows "res").0))
              (λ results. ok (results, true)) (vs, fired) (rw complete at h) in
          let (messages, l, made) =
            values_to_results_ok md (has_bindings rows "res").0 results
              (wrap_ok _ _ results wrapped) in
          inl (
            ap (λ p. p.1) (sym (ok_injective pair)),
            only_if complete,
            (
              messages,
              l ∙ length-has_bindings rows "res" (only_if complete),
              ap (λ p. p.0) (sym (ok_injective pair)) ∙ made,
            ),
          )
    ]
