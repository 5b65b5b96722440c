-- ===== src/Docker/Secrets.antt =====
-- Credentials of the registries of a workload's images: pkg/kube/secrets.go.
pub mod Credentials
use starboard.Prelude.{
  String, Bool, not, List, [], ◌∷◌, ◌++◌, Option, none, some, Map, lookup, insert, ◌==◌,
  if◌then◌else◌, concat, Result, ok, err, wrap, ◌>>=◌,
}
use starboard.Kube.Object.{
  Object, ObjectMeta, ObjectKey, PodSpec, get_pod_spec, get_container_images_from_pod_spec,
}
use starboard.Vulnerability.Builder.{Auth}
use starboard.Docker.{Libraries, read, get_server_from_image_ref, get_server_from_docker_auth_key}

-- corev1.Secret with its type.
pub record PullSecret : Type 0 where
  pub meta : ObjectMeta
  pub type : String
  pub content : Map String

-- The reads of the API server: a secret, and the names of the secrets of a service account.
pub record SecretsClient (S : Type 0) : Type 0 where
  pub get_secret : ObjectKey → S → Result PullSecret
  pub get_service_account : ObjectKey → S → Result (List String)

module _ (lib : Libraries) where
  -- The loop over the servers of one secret.
  add_servers : Map Auth → Map Auth → Result (Map Auth)
  add_servers [] auths = ok auths
  add_servers ((key, auth) ∷ rest) auths = do
    server ← get_server_from_docker_auth_key lib key
    add_servers rest (insert server auth auths)

  -- The settings of a secret: none of another type, and none without the key.
  config_of : PullSecret → Option String
  config_of secret =
      if secret.type == "kubernetes.io/dockerconfigjson"
      then lookup ".dockerconfigjson" secret.content
      else none

  add_config : Option String → Map Auth → Result (Map Auth)
  unfolding add_servers
  add_config none auths = ok auths
  add_config (some contents) auths = do
    servers ← wrap "reading .dockerconfigjson field of secret" (read lib contents)
    add_servers servers auths

  add_secrets : List PullSecret → Map Auth → Result (Map Auth)
  unfolding config_of add_config
  add_secrets [] auths = ok auths
  add_secrets (secret ∷ secrets) auths = do
    more ← add_config (config_of secret) auths
    add_secrets secrets more

  unfoldable pub map_docker_registry_servers_to_auths : List PullSecret → Result (Map Auth)
  unfolding add_secrets
  map_docker_registry_servers_to_auths secrets = add_secrets secrets []

  insert_found : String → Option Auth → Map Auth → Map Auth
  insert_found container none mapping = mapping
  insert_found container (some auth) mapping = insert container auth mapping

  -- The loop over the images.
  add_images : Map Auth → Map String → Map Auth → Result (Map Auth)
  unfolding insert_found
  add_images auths [] mapping = ok mapping
  add_images auths ((container, image) ∷ images) mapping = do
    server ← get_server_from_image_ref lib image
    add_images auths images (insert_found container (lookup server auths) mapping)

  unfoldable pub map_container_names_to_docker_auths :
      Map String → List PullSecret → Result (Map Auth)
  unfolding add_images
  map_container_names_to_docker_auths images secrets = do
    auths ← map_docker_registry_servers_to_auths secrets
    add_images auths images []

  add_credentials : String → Option Auth → Map String → Map String
  add_credentials container none entries = entries
  add_credentials container (some auth) entries =
      insert (concat container ".password") auth.password
        (insert (concat container ".username") auth.username entries)

  aggregate_from : Map String → Map Auth → Map String → Map String
  unfolding add_credentials
  aggregate_from [] credentials entries = entries
  aggregate_from ((container, image) ∷ images) credentials entries =
      aggregate_from images credentials
        (add_credentials container (lookup container credentials) entries)

  unfoldable pub aggregate_image_pull_secrets_data : Map String → Map Auth → Map String
  unfolding aggregate_from
  aggregate_image_pull_secrets_data images credentials = aggregate_from images credentials []

  module _ {S : Type 0} (client : SecretsClient S) where
    unfoldable pub list_by_local_object_references :
        List String → String → S → Result (List PullSecret)
    list_by_local_object_references [] namespace s = ok []
    list_by_local_object_references (name ∷ names) namespace s = do
      secret ←
          wrap "getting secret by name"
            (client.get_secret (record { name = name; namespace = namespace }) s)
      secrets ← list_by_local_object_references names namespace s
      ok (secret ∷ secrets)

    unfoldable pub list_by_service_account : String → String → S → Result (List PullSecret)
    unfolding list_by_local_object_references
    list_by_service_account name namespace s = do
      names ←
          wrap "getting service account by name"
            (client.get_service_account (record { name = name; namespace = namespace }) s)
      list_by_local_object_references names namespace s

    unfoldable pub list_image_pull_secrets_by_pod_spec :
        PodSpec → String → S → Result (List PullSecret)
    unfolding list_by_service_account
    list_image_pull_secrets_by_pod_spec spec namespace s = do
      secrets ← list_by_local_object_references spec.image_pull_secrets namespace s
      of_account ←
          list_by_service_account
            (if spec.service_account_name == "" then "default" else spec.service_account_name)
            namespace s
      ok (secrets ++ of_account)

    unfoldable pub credentials_by_workload : Object → S → Result (Map Auth)
    unfolding list_image_pull_secrets_by_pod_spec map_container_names_to_docker_auths
    credentials_by_workload workload s = do
      spec ← wrap "getting Pod template" (get_pod_spec workload)
      secrets ← list_image_pull_secrets_by_pod_spec spec workload.meta.namespace s
      map_container_names_to_docker_auths (get_container_images_from_pod_spec spec) secrets
