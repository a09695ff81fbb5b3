-- ===== src/Secrets/Vault.antt =====
-- Reading a secret of Vault: `VaultSecretRef` and the private methods of `SecretResolver` in
-- plugins/shms-secret-resolver/shms_secret_resolver/resolver.py. The HTTP session is a parameter: it
-- gives the decoded body, or raises where the request, `raise_for_status` or the decoding does.
-- Time-outs and log lines are left out.
pub mod Url
use nautobot_docker_compose.Base.{
  ℕ, ◌≡◌, Bool, not, ◌||◌, List, [], ◌∷◌, ◌++◌, ◌==◌, nat_eq, list_eq, if◌then◌else◌,
}
use nautobot_docker_compose.Base.Text.{Text, codes, is_empty, strip_by, drop_while}
use nautobot_docker_compose.Base.Dict.{Dict}
use nautobot_docker_compose.Secrets.Json.{
  Json, text, object, Members, no_members, Outcome, returned, ◌>=>◌, truth, get, members_or_none,
}
use mathlib.Core.List.{reverse}

pub record VaultClientConfig : Type 0 where
  pub url : Text
  pub auth_method : Text
  pub token : Text
  pub namespace : Text
  pub ca_cert : Text
  pub client_cert : Text
  pub client_key : Text
  pub cert_role : Text
  pub cert_auth_mount : Text

pub record VaultSecretRef : Type 0 where
  pub mount : Text
  pub path : Text
  pub keys : List Text
  pub kv_version : Text

-- An empty `verify` stands for `True`, an empty `namespace` for no such header.
pub record GetRequest : Type 0 where
  pub url : Text
  pub token : Json
  pub namespace : Text
  pub verify : Text

pub record PostRequest : Type 0 where
  pub url : Text
  pub body : Dict Text
  pub cert : Text × Text
  pub verify : Text

pub record Session : Type 0 where
  pub get_json : GetRequest → Outcome Json
  pub post_json : PostRequest → Outcome Json

unfoldable pub is_slash : ℕ → Bool
is_slash c = c == b'/'

-- `.strip("/")` and `.rstrip("/")`
unfoldable pub strip_slashes : Text → Text
unfolding is_slash
strip_slashes = strip_by is_slash

unfoldable pub rstrip_slashes : Text → Text
unfolding is_slash
rstrip_slashes s = reverse (drop_while is_slash (reverse s))

module _ (config : VaultClientConfig) where
  -- `_secret_url`
  unfoldable pub secret_url : VaultSecretRef → Text
  unfolding rstrip_slashes strip_slashes
  secret_url vault =
      if vault.kv_version == codes "v2"
      then rstrip_slashes config.url
        ++ (codes "/v1/"
            ++ (strip_slashes vault.mount ++ (codes "/data/" ++ strip_slashes vault.path)))
      else rstrip_slashes config.url
        ++ (codes "/v1/" ++ (strip_slashes vault.mount ++ (codes "/" ++ strip_slashes vault.path)))

  role_body : Text → Dict Text
  role_body [] = []
  role_body (c ∷ role) = (codes "name", c ∷ role) ∷ []

  login_request : PostRequest
  unfolding role_body rstrip_slashes
  login_request = record {
    url =
        rstrip_slashes config.url
        ++ (codes "/v1/auth/" ++ (config.cert_auth_mount ++ codes "/login"));
    body = role_body config.cert_role;
    cert = (config.client_cert, config.client_key);
    verify = config.ca_cert;
  }

  module _ (session : Session) where
    -- `_cert_login`
    cert_login : Outcome Json
    unfolding login_request
    cert_login =
        if is_empty config.url || is_empty config.client_cert || is_empty config.client_key
        then returned (text [])
        else session.post_json login_request >=> (λ body.
          get (codes "auth") (object no_members) body
          >=> (λ auth. get (codes "client_token") (text []) auth))

    -- `_vault_token`
    unfoldable pub vault_token : Outcome Json
    unfolding cert_login
    vault_token =
        if config.auth_method == codes "cert"
        then cert_login
        else if is_empty config.auth_method || config.auth_method == codes "token"
        then returned (text config.token)
        else returned (text [])

    -- The `data` of a payload: nested for the second version of the engine.
    payload_data : VaultSecretRef → Json → Outcome Json
    payload_data vault payload =
        if vault.kv_version == codes "v2"
        then get (codes "data") (object no_members) payload
          >=> (λ data_. get (codes "data") (object no_members) data_)
        else get (codes "data") (object no_members) payload

    fetch : VaultSecretRef → Json → Outcome Members
    unfolding payload_data
    fetch vault token =
        if not (truth token)
        then returned no_members
        else session.get_json (record {
          url = secret_url vault;
          token = token;
          namespace = config.namespace;
          verify = config.ca_cert;
        })
          >=> (λ payload.
              payload_data vault payload >=> (λ value. returned (members_or_none value)))

    -- `_read_vault_secret`
    unfoldable pub read_vault_secret : VaultSecretRef → Outcome Members
    unfolding fetch
    read_vault_secret vault =
        if is_empty config.url then returned no_members else vault_token >=> fetch vault
