-- ===== src/Tests/Docker.antt =====
-- Credentials of one registry, and libraries that answer from tables.
use starboard.Prelude.{
  concat, has_prefix, insert, trim_space, String, ◌≡◌, refl, [], ◌∷◌, some, none, Map, lookup, ◌==◌,
  if◌then◌else◌, ok, err, message,
}
use starboard.Vulnerability.Builder.{Auth}
use starboard.Docker.{
  get_server_from_image_ref, get_server_from_docker_auth_key, cut_colon, read, Libraries,
  new_basic_auth, decode,
}
use starboard.Docker.RoundTrip.{decode-new_basic_auth}
use starboard.Docker.Secrets.{
  PullSecret, map_docker_registry_servers_to_auths, map_container_names_to_docker_auths,
}
use starboard.Docker.Secrets.Credentials.{
  IsEntitled, map_container_names_to_docker_auths-IsEntitled,
}
use starboard.Tests.Data.{meta_of}

abbrev anna : Auth
anna = record { auth = "anna:se:cret"; username = "anna"; password = "se:cret" }

abbrev lib : Libraries
lib = record {
  base64_encode = λ s. s;
  base64_decode = λ s. ok s;
  auths_from_json = λ json. ok (("registry.io", record anna { username = ""; password = "" }) ∷ []);
  host_of_url =
      λ url. if url == "https://registry.io" then ok "registry.io" else err (message "bad URL");
  registry_of_image =
      λ image. ok (if image == "registry.io/app:1" then "registry.io" else "docker.io");
}

credential_round_trip_example :
    decode lib (new_basic_auth lib "anna" "se:cret") ≡ ok ("anna", "se:cret")
credential_round_trip_example = decode-new_basic_auth lib (λ s. refl) "anna" "se:cret" refl

abbrev images : Map String
images = ("app", "registry.io/app:1") ∷ ("log", "fluentd:1") ∷ []

abbrev pull_secret : PullSecret
pull_secret = record {
  meta = meta_of "pull" [] [] none;
  type = "kubernetes.io/dockerconfigjson";
  content = (".dockerconfigjson", "{}") ∷ [];
}

mapped : map_container_names_to_docker_auths lib images (pull_secret ∷ []) ≡ ok (("app", anna) ∷ [])
unfolding map_container_names_to_docker_auths map_docker_registry_servers_to_auths lookup read
    trim_space cut_colon insert get_server_from_docker_auth_key has_prefix concat
    get_server_from_image_ref
mapped = refl

credentials_example :
    (auths : Map Auth) × (map_docker_registry_servers_to_auths lib (pull_secret ∷ []) ≡ ok auths)
    × ((container : String) (auth : Auth)
        → lookup container (("app", anna) ∷ []) ≡ some auth
        → IsEntitled lib auths images container auth)
credentials_example =
    map_container_names_to_docker_auths-IsEntitled lib images (pull_secret ∷ [])
      (("app", anna) ∷ []) mapped
