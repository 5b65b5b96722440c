-- ===== src/Prelude/Maps.antt =====
-- Go's maps with string keys, as association lists. A `range` loop visits the list in its order, and a
-- theorem over every list is a theorem over every order of iteration.
use Prim.Native.String.{String}
use mathlib.Core.Bool.{Bool, false, ◌||◌}
use mathlib.Core.List.{List, [], ◌∷◌}
use mathlib.Core.Option.{Option, none, some, get_or}
use mathlib.Core.Path.{◌≡◌, refl}
use native.Mathlib.Omega.{arith}
use text.Mathlib.Text.{◌==◌}
use text.Mathlib.TextEquality.{eq_iff}
use starboard.Prelude.Tests.{if◌then◌else◌}

abbrev pub Map {ℓ} : Type ℓ → Type ℓ
Map V = List (String × V)

module _ {ℓ} {V : Type ℓ} where
  -- x, ok := entries[key]
  unfoldable pub lookup : String → Map V → Option V
  lookup key [] = none
  lookup key (entry ∷ entries) =
      let rest = lookup key entries in if entry.0 == key then some entry.1 else rest

  -- entries[key] = x
  unfoldable pub insert : String → V → Map V → Map V
  insert key x [] = (key, x) ∷ []
  insert key x (entry ∷ entries) =
      let rest = insert key x entries in if entry.0 == key then (key, x) ∷ entries else entry ∷ rest

  -- What a key is set to is read back, and every other key is as before.
  pub lookup-insert :
      (key asked : String) (x : V) (entries : Map V)
      → lookup asked (insert key x entries)
        ≡ (if key == asked then some x else lookup asked entries)
  unfolding lookup insert
  lookup-insert key asked x [] = refl
  lookup-insert key asked x (entry ∷ entries) = ground (
    arith,
    lookup-insert key asked x entries,
    eq_iff entry.0 key,
    eq_iff entry.0 asked,
    eq_iff key asked,
  )

  -- for k, v := range from { m[k] = v }
  unfoldable pub insert_all : Map V → Map V → Map V
  insert_all [] m = m
  insert_all ((k, v) ∷ from) m = insert_all from (insert k v m)

  abbrev pub keys : Map V → List String
  keys [] = []
  keys ((k, v) ∷ m) = k ∷ keys m

-- m[k] of a map into texts, blank where the key is missing.
abbrev pub value : String → Map String → String
value k m = get_or (lookup k m) ""

module _ where
  -- ext.SliceContainsString and the like: is the text in the list?
  unfoldable pub contains : List String → String → Bool
  contains [] s = false
  contains (x ∷ xs) s = x == s || contains xs s
