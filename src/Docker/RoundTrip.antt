-- ===== src/Docker/RoundTrip.antt =====
-- Reading back the credentials that were encoded.
use Prim.Native.Char.{code}
use starboard.Prelude.{
  String, Bool, false, ◌||◌, ◌≡◌, refl, some, nat_eq, concat, ok, Bool-cases, inl, inr,
}
use starboard.Docker.{Libraries, cut_colon, prefix_first, new_basic_auth, decode}

abbrev pub has_colon : String → Bool
has_colon String.[] = false
has_colon (String.◌∷◌ c s) = nat_eq (code c) b':' || has_colon s

cut_colon-concat :
    (s t : String) → has_colon s ≡ false → cut_colon (concat s (concat ":" t)) ≡ some (s, t)
unfolding cut_colon prefix_first concat
cut_colon-concat String.[] t h = refl
cut_colon-concat (String.◌∷◌ c s) t h = elim (Bool-cases (nat_eq (code c) b':')) [
  | inl colon ↦ absurd (cc (rw colon at h))
  | inr other ↦ rw (other, cut_colon-concat s t (rw other at h)) refl
]

-- What NewBasicAuth encodes is decoded to the same name and password, where the name has no colon, whatever
-- the password has, and where decoding of base64 undoes its encoding.
pub decode-new_basic_auth :
    (lib : Libraries)
    → ((s : String) → lib.base64_decode (lib.base64_encode s) ≡ ok s)
    → (username password : String) → has_colon username ≡ false
    → decode lib (new_basic_auth lib username password) ≡ ok (username, password)
unfolding decode new_basic_auth
decode-new_basic_auth lib undoes username password plain =
    rw (undoes (concat username (concat ":" password)), cut_colon-concat username password plain)
      refl
