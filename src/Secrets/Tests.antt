-- ===== src/Secrets/Tests.antt =====
-- Secrets at concrete inputs: a Vault that holds the Cisco credentials, and one that is down.
use nautobot_docker_compose.Secrets.Vault.{
  is_slash, vault_token, VaultClientConfig, VaultSecretRef, Session, secret_url, read_vault_secret,
}
use nautobot_docker_compose.Secrets.Vault.Url.{secret_url-slashes, data_segment}
use nautobot_docker_compose.Base.{
  ◌++◌, distinct, keep, ◌≡◌, refl, true, false, some, List, [], ◌∷◌, nat_eq, list_eq, list_beq,
  contains,
}
use nautobot_docker_compose.Secrets.Resolver.Fields.{
  found_or, is_complete, field_of, resolve_mapping-field, resolve_mapping-raised,
  resolve_mapping_complete,
}
use nautobot_docker_compose.Base.Dict.{keys, insert, Dict, lookup}
use nautobot_docker_compose.Secrets.Resolver.{
  candidate_keys, populate, env_fields, keys_of, first_key, vault_fields, env_value, first_nonempty,
  unresolved_fields, cisco_env_names_by_field, cisco_api_vault_keys_by_field, resolve_mapping,
  resolve_cisco_api_credentials, resolve_value, populate_shms_startup_env, populate_env_from_vault,
}
use nautobot_docker_compose.Secrets.Json.{
  member_of, get, Json, text, object, Members, no_members, member, returned, raised,
}
use nautobot_docker_compose.Base.Text.{Text, codes}
use nautobot_docker_compose.Secrets.Resolver.Environment.{env_after, populate-env}

abbrev config : VaultClientConfig
config = record {
  url = codes "https://vault/";
  auth_method = codes "token";
  token = codes "t";
  namespace = [];
  ca_cert = [];
  client_cert = [];
  client_key = [];
  cert_role = [];
  cert_auth_mount = codes "cert";
}

abbrev credentials : Members
credentials =
    member (codes "API_TOKEN_CLIENT_ID") (text (codes "id"))
      (member (codes "API_TOKEN_CLIENT_PASS") (text (codes "pw")) no_members)

abbrev payload : Json
payload = object (
    member (codes "data") (object (member (codes "data") (object credentials) no_members))
      no_members)

abbrev up : Session
up = record { get_json = λ r. returned payload; post_json = λ r. raised }

abbrev down : Session
down = record { get_json = λ r. raised; post_json = λ r. raised }

abbrev shown : Members → Text
shown _ = codes "dict"

abbrev console : VaultSecretRef
console = record {
  mount = codes "kv";
  path = codes "CISCO_API_CONSOLE";
  keys = [];
  kv_version = codes "v2";
}

-- The environment gives one of the two credentials.
abbrev half_env : Dict Text
half_env = (codes "NBCOT_CLIENT_ID", codes "mine") ∷ []

abbrev full_env : Dict Text
full_env = (codes "NBCOT_CLIENT_SECRET", codes "also mine") ∷ half_env

abbrev secret_names : List Text
secret_names =
    codes "CISCO_MODERN_API_SECRET"
    ∷ codes "NBCOT_CLIENT_SECRET"
    ∷ codes "API_TOKEN_CLIENT_PASS"
    ∷ []

secrets_run :
    resolve_cisco_api_credentials shown config up half_env [] [] []
    ≡ returned ((codes "client_id", codes "mine") ∷ (codes "client_secret", codes "pw") ∷ [])
unfolding resolve_cisco_api_credentials resolve_mapping unresolved_fields first_nonempty env_value
    lookup list_beq read_vault_secret vault_token get member_of vault_fields first_key keys_of
    insert env_fields populate_shms_startup_env populate_env_from_vault keep populate candidate_keys
    contains distinct keys is_complete found_or resolve_value
secrets_run = refl

populated_run :
    populate_shms_startup_env shown config up true half_env console false
    ≡ returned (
      codes "CISCO_MODERN_API_CLIENT_ID" ∷ codes "CISCO_MODERN_API_SECRET" ∷ [],
      (codes "NBCOT_CLIENT_ID", codes "mine")
          ∷ (codes "CISCO_MODERN_API_CLIENT_ID", codes "id")
          ∷ (codes "CISCO_MODERN_API_SECRET", codes "pw")
          ∷ [],
    )
unfolding secrets_run
populated_run = refl

secret_url-slashes_example :
    secret_url config (record console { mount = codes "/kv/"; path = codes "x//" })
    ≡ codes "https://vault"
      ++ (codes "/v1/" ++ (codes "kv" ++ (data_segment console.kv_version ++ codes "x")))
secret_url-slashes_example =
    secret_url-slashes config (record console { mount = codes "/kv/"; path = codes "x//" })
      (codes "https://vault") (codes "kv") (codes "x") 1 1 1 0 2 (unfold is_slash in refl)
      (unfold is_slash in (refl, refl)) (unfold is_slash in (refl, refl)) refl refl refl

resolve_mapping-field_example :
    field_of (codes "client_secret") (
      resolve_mapping shown config up half_env cisco_env_names_by_field
        (some console)
        cisco_api_vault_keys_by_field)
    ≡ resolve_value shown config up half_env secret_names
        (some console)
        (codes "CISCO_MODERN_API_SECRET" ∷ codes "API_TOKEN_CLIENT_PASS" ∷ [])
unfolding secrets_run
resolve_mapping-field_example =
    resolve_mapping-field shown config up half_env cisco_env_names_by_field console
      cisco_api_vault_keys_by_field credentials (codes "client_secret") secret_names refl refl refl
      refl

resolve_mapping-raised_example :
    resolve_mapping shown config down half_env cisco_env_names_by_field
      (some console)
      cisco_api_vault_keys_by_field
    ≡ raised
unfolding secrets_run
resolve_mapping-raised_example =
    resolve_mapping-raised shown config down half_env cisco_env_names_by_field console
      cisco_api_vault_keys_by_field (codes "client_secret") secret_names refl refl refl refl

resolve_mapping_complete_example :
    field_of (codes "client_secret") (
      resolve_mapping shown config down full_env cisco_env_names_by_field
        (some console)
        cisco_api_vault_keys_by_field)
    ≡ returned (codes "also mine")
unfolding secrets_run
resolve_mapping_complete_example =
    resolve_mapping_complete shown config down full_env cisco_env_names_by_field (some console)
      cisco_api_vault_keys_by_field (codes "client_secret") secret_names refl refl refl

populate-env_example :
    env_after
      (populate_env_from_vault shown config up true half_env
        (codes "NBCOT_CLIENT_ID" ∷ codes "API_TOKEN_CLIENT_ID" ∷ [])
        console
        []
        false)
      (codes "API_TOKEN_CLIENT_ID")
    ≡ returned (some (codes "id"))
unfolding secrets_run
populate-env_example =
    populate-env shown config up half_env
      (codes "NBCOT_CLIENT_ID" ∷ codes "API_TOKEN_CLIENT_ID" ∷ []) console [] false credentials
      (codes "API_TOKEN_CLIENT_ID") refl
