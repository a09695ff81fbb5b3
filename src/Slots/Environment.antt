-- ===== src/Slots/Environment.antt =====
-- slot_env of vpn/VPN_Control_API/app.py, on the environment as a dictionary.
use nautobot_docker_compose.Base.{
  not, none, ◌&&◌, ◌∷◌, some, if◌then◌else◌, [], Option, List, nat_eq, list_eq,
}
use nautobot_docker_compose.Base.Text.{is_empty, codes, Text}
use nautobot_docker_compose.Base.Dict.{insert, lookup, Dict}
use nautobot_docker_compose.Slots.Context.{SlotContext}

pub record EnvironmentSettings : Type 0 where
  pub repo_host_root : Text
  pub worker_service : Text
  pub service_compose_file : Text
  pub queue_compose_file : Text

-- `env.get(name)` as a truth value and a text: empty where there is none.
abbrev pub value_or_empty : Option Text → Text
value_or_empty none = []
value_or_empty (some value) = value

-- `env.setdefault(name, value)`
abbrev default_if : Option Text → Text → Text → Dict Text → Dict Text
default_if none name value env = insert name value env
default_if (some old) name value env = env

unfoldable pub set_default : Text → Text → Dict Text → Dict Text
set_default name value env = default_if (lookup name env) name value env

-- `if not env.get(name) and env.get(source): env[name] = env[source]`
unfoldable pub set_alias : Text → Text → Dict Text → Dict Text
set_alias name source env =
    let value = value_or_empty (lookup source env) in
    if is_empty (value_or_empty (lookup name env)) && not (is_empty value)
    then insert name value env
    else env

-- `env.update(values)`
unfoldable pub update : List (Text × Text) → Dict Text → Dict Text
update [] env = env
update ((name, value) ∷ values) env = update values (insert name value env)

unfoldable pub slot_values : EnvironmentSettings → SlotContext → List (Text × Text)
slot_values settings context =
    (codes "CUSTOMER", context.customer)
    ∷ (codes "VPN_QUEUE", context.queue_name)
    ∷ (codes "VPN_COMPOSE_PROJECT", context.project_name)
    ∷ (codes "VPN_WORKER_NAME_PREFIX", context.worker_name_prefix)
    ∷ (codes "VPN_SLOT_SLUG", context.slug)
    ∷ (codes "VPN_TENANT_NAME", context.customer)
    ∷ (codes "VPN_USE_DEDICATED_WORKER", codes "true")
    ∷ (codes "VPN_WORKER_SVC", settings.worker_service)
    ∷ (codes "VPN_SERVICE_COMPOSE_FILE", settings.service_compose_file)
    ∷ (codes "VPN_QUEUE_COMPOSE_FILE", settings.queue_compose_file)
    ∷ []

-- The four defaults, then the names that Vault's clients read, from others that are set.
unfoldable pub with_defaults : EnvironmentSettings → Dict Text → Dict Text
unfolding set_default set_alias
with_defaults settings environ =
    let defaults = set_default (codes "VPN_PROJECT_ROOT_HOST") settings.repo_host_root (
      set_default (codes "PYTHONPATH") [] (
        set_default (codes "NAUTOBOT_VERSION") [] (set_default (codes "PYTHON_VER") [] environ))) in
    let vault = set_alias (codes "VAULT_NAMESPACE") (codes "HASHICORP_VAULT_NAMESPACE") (
      set_alias (codes "VAULT_TOKEN") (codes "HASHICORP_VAULT_TOKEN")
        (set_alias (codes "VAULT_ADDR") (codes "HASHICORP_VAULT_URL") defaults)) in
    set_alias (codes "VAULT_CACERT") (codes "SSL_CERT_FILE")
      (set_alias (codes "VAULT_CACERT") (codes "REQUESTS_CA_BUNDLE") vault)

unfoldable pub slot_env : EnvironmentSettings → SlotContext → Option Text → Dict Text → Dict Text
unfolding with_defaults update slot_values
slot_env settings context passthrough environ =
    let env = update (slot_values settings context) (with_defaults settings environ) in
    let domains = value_or_empty passthrough in
    if is_empty domains then env else insert (codes "VPN_PASSTHROUGH_DOMAINS") domains env
