-- ===== src/Docker.antt =====
-- Settings of Docker registries: pkg/docker/config.go. Base64, JSON, URLs and image references are libraries.
pub mod RoundTrip
pub mod Secrets
use starboard.Prelude.{
  String, Bool, ◌&&◌, ◌||◌, List, [], ◌∷◌, Option, none, some, Map, insert, nat_eq, ◌==◌,
  if◌then◌else◌, concat, has_prefix, trim_space, Result, ok, err, message, or_error, ◌>>=◌,
}
use Prim.Native.Char.{Char, code}
use Prim.Native.String
use starboard.Vulnerability.Builder.{Auth}

pub record Libraries : Type 0 where
  pub base64_encode : String → String
  pub base64_decode : String → Result String
  pub auths_from_json : String → Result (Map Auth)
  pub host_of_url : String → Result String
  pub registry_of_image : String → Result String

prefix_first : Char → Option (String × String) → Option (String × String)
prefix_first c none = none
prefix_first c (some (s, t)) = some (String.◌∷◌ c s, t)

-- strings.SplitN(s, ":", 2), where it has two parts: cut at the first colon.
unfoldable pub cut_colon : String → Option (String × String)
unfolding prefix_first
cut_colon String.[] = none
cut_colon (String.◌∷◌ c s) =
    let rest = cut_colon s in
    if nat_eq (code c) b':' then some (String.[], s) else prefix_first c rest

is_blank : Auth → Bool
is_blank entry = entry.auth == "" && (entry.username == "" && entry.password == "")

module _ (lib : Libraries) where
  -- BasicAuth.Encode, and NewBasicAuth with it.
  unfoldable pub new_basic_auth : String → String → String
  new_basic_auth username password = lib.base64_encode (concat username (concat ":" password))

  -- BasicAuth.Decode
  unfoldable pub decode : String → Result (String × String)
  decode auth = do
    bytes ← lib.base64_decode auth
    or_error (cut_colon bytes)
        (message "expected username and password concatenated with a colon (:)")

  decode_auth : Auth → Result Auth
  unfolding decode
  decode_auth entry =
      if trim_space entry.auth == ""
      then ok (record { auth = ""; username = entry.username; password = entry.password })
      else (do
        pair ← decode entry.auth
        ok (record { auth = entry.auth; username = pair.0; password = pair.1 }))

  unfoldable pub decode_auths : Map Auth → Map Auth → Result (Map Auth)
  unfolding decode_auth is_blank
  decode_auths [] decoded = ok decoded
  decode_auths ((server, entry) ∷ auths) decoded =
      let rest = decode_auths auths in
      if is_blank entry
      then rest decoded
      else (do auth ← decode_auth entry; rest (insert server auth decoded))

  -- Config.Read
  unfoldable pub read : String → Result (Map Auth)
  unfolding decode_auths
  read contents = do auths ← lib.auths_from_json contents; decode_auths auths []

  unfoldable pub get_server_from_image_ref : String → Result String
  get_server_from_image_ref image_ref = lib.registry_of_image image_ref

  unfoldable pub get_server_from_docker_auth_key : String → Result String
  get_server_from_docker_auth_key key =
      if has_prefix key "http://" || has_prefix key "https://"
      then lib.host_of_url key
      else lib.host_of_url (concat "https://" key)
