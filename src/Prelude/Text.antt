-- ===== src/Prelude/Text.antt =====
-- The functions of Go's package strings that the program calls, on native texts.
use Prim.Native.Nat.{ℕ, zero, suc, ◌-◌}
use Prim.Native.Char.{Char, code}
use Prim.Native.String.{String}
use mathlib.Core.Bool.{Bool, true, false, ◌&&◌, ◌||◌}
use mathlib.Core.List.{List, [], ◌∷◌}
use mathlib.Core.Option
use mathlib.Core.Option.{Option, none, some, get_or}
use mathlib.Core.Path.{◌≡◌, refl, ap}
use text.Mathlib.Text.{◌==◌}
use starboard.Prelude.Tests.{nat_eq, leb, if◌then◌else◌, is_some}

-- s + t
unfoldable pub concat : String → String → String
concat String.[] t = t
concat (String.◌∷◌ c s) t = String.◌∷◌ c (concat s t)

-- strings.HasPrefix(s, prefix)
unfoldable pub has_prefix : String → String → Bool
has_prefix s String.[] = true
has_prefix String.[] (String.◌∷◌ c p) = false
has_prefix (String.◌∷◌ d s) (String.◌∷◌ c p) = nat_eq (code d) (code c) && has_prefix s p

-- What stands before the suffix, if the text ends in it.
unfoldable pub cut_suffix : String → String → Option String
cut_suffix String.[] suffix = if String.[] == suffix then some String.[] else none
cut_suffix (String.◌∷◌ c s) suffix =
    if String.◌∷◌ c s == suffix
    then some String.[]
    else Option.map (String.◌∷◌ c) (cut_suffix s suffix)

-- strings.HasSuffix(s, suffix)
unfoldable pub has_suffix : String → String → Bool
unfolding cut_suffix
has_suffix s suffix = is_some (cut_suffix s suffix)

-- strings.TrimSuffix(s, suffix)
unfoldable pub trim_suffix : String → String → String
unfolding cut_suffix
trim_suffix s suffix = get_or (cut_suffix s suffix) s

unfoldable pub prepend : Char → List String → List String
prepend c [] = String.◌∷◌ c String.[] ∷ []
prepend c (part ∷ parts) = String.◌∷◌ c part ∷ parts

-- strings.Split(s, sep) for a separator of one ASCII character, given by its code.
unfoldable pub split : ℕ → String → List String
unfolding prepend
split sep String.[] = String.[] ∷ []
split sep (String.◌∷◌ c s) =
    let rest = split sep s in if nat_eq (code c) sep then String.[] ∷ rest else prepend c rest

-- unicode.IsSpace within ASCII.
abbrev is_space : Char → Bool
is_space c =
    nat_eq (code c) 32
    || nat_eq (code c) 9
    || nat_eq (code c) 10
    || nat_eq (code c) 11
    || nat_eq (code c) 12
    || nat_eq (code c) 13

trim_left : String → String
trim_left String.[] = String.[]
trim_left (String.◌∷◌ c s) = if is_space c then trim_left s else String.◌∷◌ c s

snoc_trimmed : Char → String → String
snoc_trimmed c String.[] = if is_space c then String.[] else String.◌∷◌ c String.[]
snoc_trimmed c (String.◌∷◌ d s) = String.◌∷◌ c (String.◌∷◌ d s)

trim_right : String → String
unfolding snoc_trimmed
trim_right String.[] = String.[]
trim_right (String.◌∷◌ c s) = snoc_trimmed c (trim_right s)

-- strings.TrimSpace(s), for ASCII text.
unfoldable pub trim_space : String → String
unfolding trim_left trim_right
trim_space s = trim_right (trim_left s)

letter_at : ℕ → String → Char → Char
letter_at n String.[] c = c
letter_at zero (String.◌∷◌ d s) c = d
letter_at (suc n) (String.◌∷◌ d s) c = letter_at n s c

-- strings.ToLower(s), for ASCII text.
unfoldable pub to_lower : String → String
unfolding letter_at
to_lower String.[] = String.[]
to_lower (String.◌∷◌ c s) =
    String.◌∷◌
      (if leb b'A' (code c) && leb (code c) b'Z'
        then letter_at (code c - b'A') "abcdefghijklmnopqrstuvwxyz" c
        else c)
      (to_lower s)

-- strings.ToUpper(s), for ASCII text.
unfoldable pub to_upper : String → String
unfolding letter_at
to_upper String.[] = String.[]
to_upper (String.◌∷◌ c s) =
    String.◌∷◌
      (if leb b'a' (code c) && leb (code c) b'z'
        then letter_at (code c - b'a') "ABCDEFGHIJKLMNOPQRSTUVWXYZ" c
        else c)
      (to_upper s)

-- fmt.Sprintf("%s-%s", s, t)
unfoldable pub dashed : String → String → String
unfolding concat
dashed s t = concat s (concat "-" t)

pub concat_assoc : (s t u : String) → concat (concat s t) u ≡ concat s (concat t u)
unfolding concat
concat_assoc String.[] t u = refl
concat_assoc (String.◌∷◌ c s) t u = ap (String.◌∷◌ c) (concat_assoc s t u)

pub dashed_assoc : (s t u : String) → dashed (dashed s t) u ≡ dashed s (dashed t u)
unfolding dashed
dashed_assoc s t u = simp concat_assoc
