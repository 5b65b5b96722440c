-- ===== src/Prelude/Errors.antt =====
-- Errors as values. An error of the API server is told by its reason, all that the code asks of it;
-- `fmt.Errorf` with `%w` wraps, and a message is the text that its format begins with.
use Prim.Native.String.{String}
use mathlib.Core.Bool.{Bool, true, false}
use mathlib.Core.Logic.{◌⊎◌, inl, inr}
use mathlib.Core.Option.{Option, none, some}
use mathlib.Core.Path.{◌≡◌, refl, ap}

pub data Reason : Type 0 where
  not_found already_exists other_reason : Reason

pub data Error : Type 0 where
  status : Reason → Error
  replica_set_not_found no_running_pods unsupported_kind : Error
  pod_not_found : Error
  panicked : Error
  message : String → Error
  wrapped : String → Error → Error

pub data Result {ℓ} (A : Type ℓ) : Type ℓ where
  ok : A → Result A
  err : Error → Result A

-- errors.IsNotFound(err), errors.IsAlreadyExists(err): both look through wrapping.
unfoldable pub is_not_found : Error → Bool
is_not_found (status not_found) = true
is_not_found (wrapped text e) = is_not_found e
is_not_found _ = false

unfoldable pub is_already_exists : Error → Bool
is_already_exists (status already_exists) = true
is_already_exists (wrapped text e) = is_already_exists e
is_already_exists _ = false

infixl 5 ◌>>=◌
abbrev pub ◌>>=◌ {ℓ κ} : {A : Type ℓ} {B : Type κ} → Result A → (A → Result B) → Result B
ok a >>= f = f a
err e >>= f = err e

-- if err != nil { return fmt.Errorf(text, err) }
abbrev pub wrap {ℓ} : {A : Type ℓ} → String → Result A → Result A
wrap text (ok a) = ok a
wrap text (err e) = err (wrapped text e)

abbrev pub or_error {ℓ} : {A : Type ℓ} → Option A → Error → Result A
or_error none e = err e
or_error (some a) e = ok a

-- A value, or else the other one.
abbrev pub or_else {ℓ} : {A : Type ℓ} → Option A → Option A → Option A
or_else none b = b
or_else (some a) b = some a

-- What a successful step says of its parts.
pub bind_ok {ℓ κ} :
    {A : Type ℓ} {B : Type κ} (r : Result A) (next : A → Result B) (b : B)
    → (r >>= next) ≡ ok b
    → (a : A) × (r ≡ ok a) × (next a ≡ ok b)
bind_ok (ok a) next b h = (a, refl, h)
bind_ok (err e) next b h = cc

pub wrap_ok {ℓ} :
    {A : Type ℓ} (text : String) (r : Result A) (a : A) → wrap text r ≡ ok a → r ≡ ok a
wrap_ok text (ok b) a h = h
wrap_ok text (err e) a h = cc

pub or_error_ok {ℓ} :
    {A : Type ℓ} (o : Option A) (e : Error) (a : A) → or_error o e ≡ ok a → o ≡ some a
or_error_ok none e a h = cc
or_error_ok (some b) e a h = cc

abbrev ok_or {ℓ} : {A : Type ℓ} → A → Result A → A
ok_or a (ok b) = b
ok_or a (err e) = a

pub ok_injective {ℓ} : {A : Type ℓ} {a b : A} → ok a ≡ ok b → a ≡ b
ok_injective {a = a} p = ap (ok_or a) p

pub Result-cases {ℓ} :
    {A : Type ℓ} (r : Result A) → ((e : Error) × (r ≡ err e)) ⊎ ((a : A) × (r ≡ ok a))
Result-cases (ok a) = inr (a, refl)
Result-cases (err e) = inl (e, refl)
