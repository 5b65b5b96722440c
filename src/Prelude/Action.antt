-- ===== src/Prelude/Action.antt =====
-- Code that calls the API server: what a call has written stays written when a later call fails, so the
-- state comes back with an error too.
use mathlib.Core.Logic.{inl, inr}
use mathlib.Core.Path.{◌≡◌, refl, ap}
use starboard.Prelude.Errors.{Error, Result, ok, err, Result-cases}

abbrev pub Action {ℓ} : Type ℓ → Type ℓ → Type ℓ
Action S A = S → Result A × S

module _ {ℓ} {S A : Type ℓ} where
  unfoldable pub return : A → Action S A
  return a s = (ok a, s)

  unfoldable pub fail : Error → Action S A
  fail e s = (err e, s)

  -- A pure or reading step, by its result at the state.
  unfoldable pub reading : (S → Result A) → Action S A
  reading r s = (r s, s)

-- What follows a result: one thing on a value, another on an error.
abbrev pub either {ℓ κ} : {A : Type ℓ} {B : Type κ} → Result A → (A → B) → (Error → B) → B
either (ok a) good bad = good a
either (err e) good bad = bad e

module _ {ℓ} {S A B : Type ℓ} where
  -- if err != nil { ... } with a handler of its own
  unfoldable pub handle : Action S A → (A → Action S B) → (Error → Action S B) → Action S B
  unfolding return fail reading
  handle m good bad s = let (r, s') = m s in either r (λ a. good a s') (λ e. bad e s')

  infixl 5 ◌>>=◌ ◌>>◌
  -- if err != nil { return err }
  unfoldable pub ◌>>=◌ : Action S A → (A → Action S B) → Action S B
  unfolding handle
  m >>= next = handle m next fail

  abbrev pub ◌>>◌ : Action S A → Action S B → Action S B
  m >> next = m >>= λ _. next

module _ {ℓ κ} {S A B : Type ℓ} where
  -- What holds after each of the two ways on holds after a step that only reads.
  pub handle-reading :
      (C : Result B × S → Type κ) (r : S → Result A) (good : A → Action S B)
      (bad : Error → Action S B) (s : S)
      → ((a : A) → r s ≡ ok a → C (good a s))
      → ((e : Error) → r s ≡ err e → C (bad e s))
      → C (handle (reading r) good bad s)
  unfolding handle reading
  handle-reading C r good bad s on_ok on_err = elim (Result-cases (r s)) [
    | inl (e, failed) ↦ rw failed (on_err e failed)
    | inr (a, got) ↦ rw got (on_ok a got)
  ]

  pub handle-reading_ok :
      (r : S → Result A) (good : A → Action S B) (bad : Error → Action S B) (s : S) (a : A)
      → r s ≡ ok a
      → handle (reading r) good bad s ≡ good a s
  unfolding handle reading
  handle-reading_ok r good bad s a got = rw got refl

  pub >>=-reading :
      (C : Result B × S → Type κ) (r : S → Result A) (next : A → Action S B) (s : S)
      → ((a : A) → r s ≡ ok a → C (next a s))
      → ((e : Error) → r s ≡ err e → C (err e, s))
      → C ((reading r >>= next) s)
  unfolding ◌>>=◌ fail
  >>=-reading C r next s on_ok on_err = handle-reading C r next fail s on_ok on_err

module _ {ℓ} {S A B : Type ℓ} where
  -- What follows a step whose result is known.
  pub >>=-ok :
      (m : Action S A) (next : A → Action S B) (s s' : S) (a : A)
      → m s ≡ (ok a, s')
      → (m >>= next) s ≡ next a s'
  unfolding ◌>>=◌ handle
  >>=-ok m next s s' a ran = rw ran refl

  pub >>=-err :
      (m : Action S A) (next : A → Action S B) (s s' : S) (e : Error)
      → m s ≡ (err e, s')
      → (m >>= next) s ≡ (err e, s')
  unfolding ◌>>=◌ handle fail
  >>=-err m next s s' e ran = rw ran refl

  -- A run that ends well has both steps end well.
  pub handle-fail_ok :
      (m : Action S A) (next : A → Action S B) (s s' : S) (b : B)
      → handle m next fail s ≡ (ok b, s')
      → (a : A) × (t : S) × (m s ≡ (ok a, t)) × (next a t ≡ (ok b, s'))
  unfolding handle fail
  handle-fail_ok m next s s' b h = elim (Result-cases (m s).0) [
    | inl (e, bad) ↦ absurd (cc (ap (λ p. p.0) (rw bad at h)))
    | inr (a, got) ↦ (a, (m s).1, ap (λ r. (r, (m s).1)) got, rw got at h)
  ]
