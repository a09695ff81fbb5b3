-- ===== src/Secrets/Resolver.antt =====
-- `SecretResolver` of plugins/shms-secret-resolver/shms_secret_resolver/resolver.py: the values come
-- from the environment first, then from Vault. `shown` is `str` on a dictionary. Log lines are left
-- out.
pub mod Fields
pub mod Environment
use nautobot_docker_compose.Base.{
  Bool, not, ◌||◌, Option, none, some, List, [], ◌∷◌, ◌++◌, nat_eq, list_eq, if◌then◌else◌, keep,
}
use nautobot_docker_compose.Base.Text.{Text, codes, is_empty, or_text}
use nautobot_docker_compose.Base.Dict.{Dict, lookup, insert}
use nautobot_docker_compose.Secrets.Json.{
  Json, text, object, other, Members, member_of, Outcome, returned, ◌>=>◌, truth,
}
use nautobot_docker_compose.Secrets.Vault.{
  VaultClientConfig, VaultSecretRef, Session, strip_slashes, read_vault_secret,
}

abbrev pub shms_startup_secret_env_names : List Text
shms_startup_secret_env_names =
    codes "NAUTOBOT_AUTH_LDAP_BIND_PASSWORD"
    ∷ codes "NAUTOBOT_CREATE_SUPERUSER"
    ∷ codes "NAUTOBOT_DB_PASSWORD"
    ∷ codes "NAUTOBOT_MINIO_ACCESS_KEY"
    ∷ codes "NAUTOBOT_MINIO_SECRET_KEY"
    ∷ codes "NAUTOBOT_NAPALM_PASSWORD"
    ∷ codes "NAUTOBOT_NAPALM_USERNAME"
    ∷ codes "NAUTOBOT_REDIS_PASSWORD"
    ∷ codes "NAUTOBOT_SECRET_KEY"
    ∷ codes "NAUTOBOT_SUPERUSER_API_TOKEN"
    ∷ codes "NAUTOBOT_SUPERUSER_EMAIL"
    ∷ codes "NAUTOBOT_SUPERUSER_NAME"
    ∷ codes "NAUTOBOT_SUPERUSER_PASSWORD"
    ∷ codes "POSTGRES_PASSWORD"
    ∷ codes "PGPASSWORD"
    ∷ codes "CISCO_MODERN_API_CLIENT_ID"
    ∷ codes "CISCO_MODERN_API_SECRET"
    ∷ codes "EMAIL_HOST_PASSWORD"
    ∷ codes "EMAIL_HOST_USER"
    ∷ codes "NBCOT_TEAMS_WEBHOOK_URL"
    ∷ codes "VPN_CONTROL_API_KEY"
    ∷ []

abbrev pub shms_startup_secret_keys_by_env : Dict (List Text)
shms_startup_secret_keys_by_env =
    (
      codes "CISCO_MODERN_API_CLIENT_ID",
      codes "CISCO_MODERN_API_CLIENT_ID" ∷ codes "API_TOKEN_CLIENT_ID" ∷ [],
    )
    ∷ (
      codes "CISCO_MODERN_API_SECRET",
      codes "CISCO_MODERN_API_SECRET" ∷ codes "API_TOKEN_CLIENT_PASS" ∷ [],
    )
    ∷ []

abbrev pub cisco_env_names_by_field : Dict (List Text)
cisco_env_names_by_field =
    (
      codes "client_id",
      codes "CISCO_MODERN_API_CLIENT_ID"
          ∷ codes "NBCOT_CLIENT_ID"
          ∷ codes "API_TOKEN_CLIENT_ID"
          ∷ [],
    )
    ∷ (
      codes "client_secret",
      codes "CISCO_MODERN_API_SECRET"
          ∷ codes "NBCOT_CLIENT_SECRET"
          ∷ codes "API_TOKEN_CLIENT_PASS"
          ∷ [],
    )
    ∷ []

abbrev pub cisco_api_vault_keys_by_field : Dict (List Text)
cisco_api_vault_keys_by_field =
    (codes "client_id", codes "CISCO_MODERN_API_CLIENT_ID" ∷ codes "API_TOKEN_CLIENT_ID" ∷ [])
    ∷ (codes "client_secret", codes "CISCO_MODERN_API_SECRET" ∷ codes "API_TOKEN_CLIENT_PASS" ∷ [])
    ∷ []

abbrev pub text_or : Text → Option Text → Text
text_or default none = default
text_or default (some value) = value

-- `env.get(name)` where only the truth of the value counts
unfoldable pub env_value : Dict Text → Text → Text
env_value env name = text_or [] (lookup name env)

-- `_first_nonempty`
unfoldable pub first_nonempty : Dict Text → List Text → Text
first_nonempty env [] = []
first_nonempty env (name ∷ names) = or_text (env_value env name) (first_nonempty env names)

module _ (shown : Members → Text) where
  -- `str(value)`
  str : Json → Text
  str (text s) = s
  str (object members) = shown members
  str (other b s) = s

  true_value : Option Json → Option Text
  unfolding str
  true_value none = none
  true_value (some value) = if truth value then some (str value) else none

  -- The first of the keys with a true value in the secret.
  unfoldable pub first_key : List Text → Members → Option Text
  unfolding true_value
  first_key [] secret_data = none
  first_key (key ∷ keys) secret_data = elim (true_value (member_of key secret_data)) [
    | none ↦ first_key keys secret_data
    | some value ↦ some value
  ]

  module _ (config : VaultClientConfig) (session : Session) where
    or_keys : List Text → List Text → List Text
    or_keys [] keys = keys
    or_keys (key ∷ keys) _ = key ∷ keys

    from_vault : Option VaultSecretRef → List Text → Outcome Text
    unfolding or_keys
    from_vault none keys = returned []
    from_vault (some vault) keys =
        read_vault_secret config session vault
        >=> (λ secret_data. returned (text_or [] (first_key (or_keys keys vault.keys) secret_data)))

    -- `resolve_value`
    unfoldable pub resolve_value :
        Dict Text → List Text → Option VaultSecretRef → List Text → Outcome Text
    unfolding from_vault
    resolve_value env env_names vault keys =
        let value = first_nonempty env env_names in
        if is_empty value then from_vault vault keys else returned value

    -- The first loop of `resolve_mapping`: the values that the environment gives, and the fields
    -- that it does not.
    unfoldable pub env_fields : Dict Text → Dict (List Text) → Dict Text → Dict Text
    env_fields env [] values = values
    env_fields env ((field, env_names) ∷ fields) values =
        env_fields env fields (insert field (first_nonempty env env_names) values)

    unfoldable pub unresolved_fields : Dict Text → Dict (List Text) → List Text
    unresolved_fields env [] = []
    unresolved_fields env ((field, env_names) ∷ fields) =
        let rest = unresolved_fields env fields in
        if is_empty (first_nonempty env env_names) then field ∷ rest else rest

    -- `key_map.get(field_name, (field_name,))`
    keys_or_name : Text → Option (List Text) → List Text
    keys_or_name field none = field ∷ []
    keys_or_name field (some keys) = keys

    unfoldable pub keys_of : Dict (List Text) → Text → List Text
    unfolding keys_or_name
    keys_of key_map field = keys_or_name field (lookup field key_map)

    set_found : Text → Option Text → Dict Text → Dict Text
    set_found field none values = values
    set_found field (some value) values = insert field value values

    -- The second loop, over the fields that are left.
    unfoldable pub vault_fields : Dict (List Text) → List Text → Members → Dict Text → Dict Text
    unfolding set_found
    vault_fields key_map [] secret_data values = values
    vault_fields key_map (field ∷ fields) secret_data values =
        vault_fields key_map fields secret_data
          (set_found field (first_key (keys_of key_map field) secret_data) values)

    fill : Dict (List Text) → List Text → Option VaultSecretRef → Dict Text → Outcome (Dict Text)
    fill key_map [] vault values = returned values
    fill key_map (field ∷ fields) none values = returned values
    fill key_map (field ∷ fields) (some vault) values =
        read_vault_secret config session vault
        >=> (λ secret_data. returned (vault_fields key_map (field ∷ fields) secret_data values))

    -- `resolve_mapping`
    unfoldable pub resolve_mapping :
        Dict Text
        → Dict (List Text)
        → Option VaultSecretRef
        → Dict (List Text)
        → Outcome (Dict Text)
    unfolding fill
    resolve_mapping env env_names_by_field vault key_map =
        fill key_map (unresolved_fields env env_names_by_field) vault
          (env_fields env env_names_by_field [])

    -- The loop of `populate_env_from_vault` over the names that are missing: the names that it
    -- populates, and the environment after it.
    set_populated : Text → Option Text → List Text × Dict Text → List Text × Dict Text
    set_populated name none (populated, env) = (populated, env)
    set_populated name (some value) (populated, env) =
        (populated ++ (name ∷ []), insert name value env)

    names_or_none : Option (List Text) → List Text
    names_or_none none = []
    names_or_none (some names) = names

    unfoldable pub candidate_keys : Dict (List Text) → Text → List Text
    unfolding names_or_none
    candidate_keys key_map name = names_or_none (lookup name key_map) ++ (name ∷ [])

    unfoldable pub populate :
        Dict (List Text) → List Text → Members → List Text × Dict Text → List Text × Dict Text
    unfolding set_populated
    populate key_map [] secret_data done = done
    populate key_map (name ∷ names) secret_data done =
        populate key_map names secret_data
          (set_populated name (first_key (candidate_keys key_map name) secret_data) done)

    populate_missing :
        List Text → VaultSecretRef → Dict (List Text) → Dict Text → Outcome (List Text × Dict Text)
    populate_missing [] vault key_map env = returned ([], env)
    populate_missing (name ∷ names) vault key_map env =
        read_vault_secret config session vault
        >=> (λ secret_data. returned (populate key_map (name ∷ names) secret_data ([], env)))

    unfoldable pub missing_names : Bool → List Text → Dict Text → List Text
    missing_names overwrite env_names env =
        keep (λ name. overwrite || is_empty (env_value env name)) env_names

    -- `populate_env_from_vault`. The flag says that the environment is a mutable mapping.
    unfoldable pub populate_env_from_vault :
        Bool
        → Dict Text
        → List Text
        → VaultSecretRef
        → Dict (List Text)
        → Bool
        → Outcome (List Text × Dict Text)
    unfolding populate_missing missing_names
    populate_env_from_vault mutable env env_names vault key_map overwrite =
        if not mutable
        then returned ([], env)
        else populate_missing (missing_names overwrite env_names env) vault key_map env

    -- `populate_shms_startup_env`
    unfoldable pub populate_shms_startup_env :
        Bool → Dict Text → VaultSecretRef → Bool → Outcome (List Text × Dict Text)
    populate_shms_startup_env mutable env vault overwrite =
        populate_env_from_vault mutable env shms_startup_secret_env_names vault
          shms_startup_secret_keys_by_env overwrite

    -- `resolve_cisco_api_credentials`. An argument that is not given is empty.
    unfoldable pub cisco_vault : Dict Text → Text → Text → Text → VaultSecretRef
    cisco_vault env vault_mount vault_path kv_version = record {
      mount = strip_slashes (
          or_text vault_mount
            (or_text (env_value env (codes "CISCO_API_VAULT_MOUNT")) (codes "kv")));
      path = strip_slashes (
          or_text vault_path
            (or_text (env_value env (codes "CISCO_API_VAULT_PATH")) (codes "CISCO_API_CONSOLE")));
      keys = [];
      kv_version =
          or_text kv_version
            (or_text (env_value env (codes "CISCO_API_VAULT_KV_VERSION")) (codes "v2"));
    }

    unfoldable pub resolve_cisco_api_credentials :
        Dict Text → Text → Text → Text → Outcome (Dict Text)
    unfolding cisco_vault
    resolve_cisco_api_credentials env vault_mount vault_path kv_version =
        resolve_mapping env cisco_env_names_by_field
          (some (cisco_vault env vault_mount vault_path kv_version)) cisco_api_vault_keys_by_field
