-- ===== src/Secrets/Resolver/Environment.antt =====
-- What `populate_env_from_vault` of
-- plugins/shms-secret-resolver/shms_secret_resolver/resolver.py does to the environment.
use nautobot_docker_compose.Base.{
  ◌≡◌, refl, Bool, true, false, ◌&&◌, ◌||◌, Option, none, some, List, [], ◌∷◌, ◌==◌, nat_eq,
  list_eq, list_beq_iff, if◌then◌else◌, contains, contains-keep, arith,
}
use nautobot_docker_compose.Base.Text.{Text, is_empty}
use nautobot_docker_compose.Base.Dict.{Dict, lookup, lookup-insert}
use nautobot_docker_compose.Secrets.Json.{Members, Outcome, returned, ◌>=>◌}
use nautobot_docker_compose.Secrets.Vault.{
  VaultClientConfig, VaultSecretRef, Session, read_vault_secret,
}
use nautobot_docker_compose.Secrets.Resolver.{
  env_value, first_key, populate, set_populated, candidate_keys, populate_missing, missing_names,
  populate_env_from_vault,
}
use nautobot_docker_compose.Secrets.Resolver.Fields.{found_or}

abbrev is_found : Option Text → Bool
is_found none = false
is_found (some value) = true

-- The environment after a call.
abbrev pub env_after : Outcome (List Text × Dict Text) → Text → Outcome (Option Text)
env_after outcome name = outcome >=> (λ done. returned (lookup name done.1))

module _ (shown : Members → Text) (config : VaultClientConfig) (session : Session) where
  lookup-set_populated :
      (name f : Text) (value : Option Text) (done : List Text × Dict Text)
      → lookup f (set_populated shown config session name value done).1
        ≡ (if name == f then found_or value (lookup f done.1) else lookup f done.1)
  unfolding set_populated found_or
  lookup-set_populated name f none (populated, env) = ground arith
  lookup-set_populated name f (some value) (populated, env) = lookup-insert name f value env

  lookup-populate :
      (key_map : Dict (List Text)) (names : List Text) (secret_data : Members)
      (done : List Text × Dict Text) (f : Text)
      → lookup f (populate shown config session key_map names secret_data done).1 ≡ (
          if contains names f
          then found_or
              (first_key shown (candidate_keys shown config session key_map f) secret_data)
              (lookup f done.1)
          else lookup f done.1)
  unfolding populate contains found_or
  lookup-populate key_map [] secret_data done f = refl
  lookup-populate key_map (name ∷ names) secret_data done f =
      let value = first_key shown (candidate_keys shown config session key_map name) secret_data in
      ground (
        arith,
        list_beq_iff name f,
        lookup-populate key_map names secret_data
            (set_populated shown config session name value done) f,
        lookup-set_populated name f value done,
      )

  missing-after :
      (names : List Text) (vault : VaultSecretRef) (key_map : Dict (List Text)) (env : Dict Text)
      (secret_data : Members) (f : Text)
      → read_vault_secret config session vault ≡ returned secret_data
      → env_after (populate_missing shown config session names vault key_map env) f
        ≡ returned (
            if contains names f
            then found_or
                (first_key shown (candidate_keys shown config session key_map f) secret_data)
                (lookup f env)
            else lookup f env)
  unfolding populate_missing contains
  missing-after [] vault key_map env secret_data f h = refl
  missing-after (name ∷ names) vault key_map env secret_data f h = rw h (
      rw (lookup-populate key_map (name ∷ names) secret_data ([], env) f) (unfold contains in refl))

  -- Where Vault answers and the environment is mutable: a variable that is asked for, and that is
  -- empty or to be overwritten, gets the first true value of its candidate keys if the secret has
  -- one; every other variable, and one that the secret has no value for, keeps its value.
  pub populate-env :
      (env : Dict Text) (env_names : List Text) (vault : VaultSecretRef)
      (key_map : Dict (List Text)) (overwrite : Bool) (secret_data : Members) (f : Text)
      → read_vault_secret config session vault ≡ returned secret_data
      → env_after
          (populate_env_from_vault shown config session true env env_names vault key_map overwrite)
          f
        ≡ returned (
            if contains env_names f && (overwrite || is_empty (env_value env f))
            then found_or
                (first_key shown (candidate_keys shown config session key_map f) secret_data)
                (lookup f env)
            else lookup f env)
  unfolding populate_env_from_vault missing_names
  populate-env env env_names vault key_map overwrite secret_data f h =
      rw
        (missing-after (missing_names shown config session overwrite env_names env) vault key_map
          env secret_data f h)
        (rw (contains-keep (λ name. overwrite || is_empty (env_value env name)) env_names f))
