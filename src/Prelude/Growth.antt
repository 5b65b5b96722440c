-- ===== src/Prelude/Growth.antt =====
-- By how much can an action enlarge what is counted in the state?
use Prim.Native.Nat.{ℕ, ◌+◌, ◌≤◌}
use mathlib.Core.Bool.{Bool, true, false}
use native.Mathlib.Omega.{arith}
use starboard.Prelude.Errors.{Error, Result, ok, err}
use starboard.Prelude.Tests.{if◌then◌else◌}
use starboard.Prelude.Action.{Action, either, return, fail, reading, handle, ◌>>=◌}

module _ {S : Type 0} (count : S → ℕ) where
  abbrev pub Adds : ℕ → {A : Type 0} → Action S A → Type 0
  Adds n m = (s : S) → count (m s).1 ≤ count s + n

  pub fail-Adds : (A : Type 0) (n : ℕ) (e : Error) → Adds n (fail {A = A} e)
  unfolding fail
  fail-Adds A n e s = omega arith

  module _ {A : Type 0} where
    pub return-Adds : (n : ℕ) (a : A) → Adds n (return a)
    unfolding return
    return-Adds n a s = omega arith

    pub if-Adds :
        (n : ℕ) (b : Bool) (m m' : Action S A) → Adds n m → Adds n m' → Adds n (if b then m else m')
    if-Adds n true m m' adds _ = adds
    if-Adds n false m m' _ adds = adds

  module _ {A B : Type 0} where
    either_count :
        (n : ℕ) (r : Result A) (good : A → Action S B) (bad : Error → Action S B) (s : S)
        → ((a : A) → Adds n (good a))
        → ((e : Error) → Adds n (bad e))
        → count (either r (λ a. good a s) (λ e. bad e s)).1 ≤ count s + n
    either_count n (ok a) good bad s on_ok on_err = on_ok a s
    either_count n (err e) good bad s on_ok on_err = on_err e s

    pub handle-Adds :
        (n k : ℕ) (m : Action S A) (good : A → Action S B) (bad : Error → Action S B)
        → Adds n m
        → ((a : A) → Adds k (good a))
        → ((e : Error) → Adds k (bad e))
        → Adds (n + k) (handle m good bad)
    unfolding handle
    handle-Adds n k m good bad adds on_ok on_err s =
        omega (arith, adds s, either_count k (m s).0 good bad (m s).1 on_ok on_err)

    -- A step that only reads adds nothing.
    pub reading-Adds :
        (n : ℕ) (r : S → Result A) (good : A → Action S B) (bad : Error → Action S B)
        → ((a : A) → Adds n (good a))
        → ((e : Error) → Adds n (bad e))
        → Adds n (handle (reading r) good bad)
    unfolding handle reading
    reading-Adds n r good bad on_ok on_err s = either_count n (r s) good bad s on_ok on_err

    pub >>=-Adds :
        (n k : ℕ) (m : Action S A) (next : A → Action S B)
        → Adds n m
        → ((a : A) → Adds k (next a))
        → Adds (n + k) (m >>= next)
    unfolding ◌>>=◌
    >>=-Adds n k m next adds on_ok = handle-Adds n k m next fail adds on_ok (λ e. fail-Adds B k e)

    pub read-Adds :
        (n : ℕ) (r : S → Result A) (next : A → Action S B)
        → ((a : A) → Adds n (next a))
        → Adds n (reading r >>= next)
    unfolding ◌>>=◌
    read-Adds n r next on_ok = reading-Adds n r next fail on_ok (λ e. fail-Adds B n e)
