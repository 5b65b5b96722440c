-- ===== src/Docker/Secrets/Credentials.antt =====
-- Whose credentials does a container get?
use starboard.Prelude.{
  String, ◌≡◌, ◌∙◌, sym, ap, ◌⊎◌, inl, inr, List, [], ◌∷◌, Option, none, some, Map, lookup,
  lookup-insert, ◌==◌, eq_iff, ok, bind_ok, ok_injective, Bool-cases,
}
use starboard.Vulnerability.Builder.{Auth}
use starboard.Docker.{Libraries, get_server_from_image_ref}
use starboard.Docker.Secrets.{
  PullSecret, insert_found, add_images, map_docker_registry_servers_to_auths,
  map_container_names_to_docker_auths,
}

module _ (lib : Libraries) where
  -- The container has an image whose registry has these credentials.
  abbrev pub IsEntitled : Map Auth → Map String → String → Auth → Type 0
  IsEntitled auths [] container auth = ⊥
  IsEntitled auths ((name, image) ∷ images) container auth =
      ((name ≡ container)
        × (server : String) × (get_server_from_image_ref lib image ≡ ok server)
        × (lookup server auths ≡ some auth))
      ⊎ IsEntitled auths images container auth

  insert_found_cases :
      (name : String) (found : Option Auth) (mapping : Map Auth) (container : String) (auth : Auth)
      → lookup container (insert_found lib name found mapping) ≡ some auth
      → ((name ≡ container) × (found ≡ some auth)) ⊎ (lookup container mapping ≡ some auth)
  unfolding insert_found
  insert_found_cases name none mapping container auth h = inr h
  insert_found_cases name (some a) mapping container auth h =
      let set = sym (lookup-insert name container a mapping) ∙ h in
      elim (Bool-cases (name == container)) [
        | inl same ↦ inl ((eq_iff name container).0 same, rw same at set)
        | inr other ↦ inr (rw other at set)
      ]

  add_images-IsEntitled :
      (auths : Map Auth) (images : Map String) (mapping result : Map Auth) (container : String)
      (auth : Auth)
      → add_images lib auths images mapping ≡ ok result
      → lookup container result ≡ some auth
      → IsEntitled auths images container auth ⊎ (lookup container mapping ≡ some auth)
  unfolding add_images
  add_images-IsEntitled auths [] mapping result container auth h got =
      inr (ap (lookup container) (ok_injective h) ∙ got)
  add_images-IsEntitled auths ((name, image) ∷ images) mapping result container auth h got =
      let (server, at_registry, rest) =
        bind_ok (get_server_from_image_ref lib image)
          (λ server.
            add_images lib auths images (insert_found lib name (lookup server auths) mapping))
          result h in
      elim (add_images-IsEntitled auths images (insert_found lib name (lookup server auths) mapping)
        result container auth rest got) [
          | inl later ↦ inl (inr later)
          | inr before ↦
              elim (insert_found_cases name (lookup server auths) mapping container auth before) [
                | inl (same, found) ↦ inl (inl (same, server, at_registry, found))
                | inr old ↦ inr old
              ]
        ]

  -- Where the credentials of the images are found, a container gets credentials only of the registry of one
  -- of its images, as the pull secrets have them.
  pub map_container_names_to_docker_auths-IsEntitled :
      (images : Map String) (secrets : List PullSecret) (mapping : Map Auth)
      → map_container_names_to_docker_auths lib images secrets ≡ ok mapping
      → (auths : Map Auth) × (map_docker_registry_servers_to_auths lib secrets ≡ ok auths)
        × ((container : String) (auth : Auth)
            → lookup container mapping ≡ some auth
            → IsEntitled auths images container auth)
  unfolding map_container_names_to_docker_auths lookup
  map_container_names_to_docker_auths-IsEntitled images secrets mapping h =
      let (auths, read, added) =
        bind_ok (map_docker_registry_servers_to_auths lib secrets)
          (λ auths. add_images lib auths images []) mapping h in
      (
        auths,
        read,
        λ container auth got.
            elim (add_images-IsEntitled auths images [] mapping container auth added got) [
              | inl entitled ↦ entitled
              | inr nothing ↦ absurd (cc nothing)
            ],
      )
