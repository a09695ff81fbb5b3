-- ===== src/Slots/Profile.antt =====
-- `_first_nonempty`, `resolve_vpn_profile` and `slot_state` of vpn/VPN_Control_API/app.py. The
-- metadata that Vault gives, or none, are an argument.
use nautobot_docker_compose.Base.{
  arith, false, ◌↔◌, ◌≡◌, ℕ, Bool, ◌&&◌, ◌||◌, Option, none, some, List, [], ◌∷◌, ◌==◌, nat_eq,
  list_eq, ltb, leb, if◌then◌else◌,
}
use nautobot_docker_compose.Base.Text.{Text, codes, strip, is_empty, or_text}
use nautobot_docker_compose.Base.Dict.{Dict, lookup}

pub record VpnProfile : Type 0 where
  pub vpn_type : Text
  pub vpn_client : Text
  pub host : Text
  pub port : Text
  pub profile_name : Text
  pub usergroup : Text
  pub client_runtime : Text
  pub worker_network_mode : Text

stripped_or_none : Option Text → Text
stripped_or_none none = []
stripped_or_none (some value) = strip value

-- `_first_nonempty`
unfoldable pub first_given : List (Option Text) → Text
unfolding stripped_or_none
first_given [] = []
first_given (value ∷ values) = or_text (stripped_or_none value) (first_given values)

-- `overrides.get(name)`
flat : Option (Option Text) → Option Text
flat none = none
flat (some value) = value

module _ (metadata : Dict Text) (overrides : Dict (Option Text)) where
  unfoldable pub given : Text → Text
  unfolding flat
  given name = first_given (flat (lookup name overrides) ∷ lookup name metadata ∷ [])

  unfoldable pub client_of : Text → Text → Text
  client_of vpn_type vpn_client =
      if vpn_type == codes "cisco-anyconnect" && is_empty vpn_client
      then codes "openconnect"
      else vpn_client

  unfoldable pub runtime_of : Text → Text → Text
  runtime_of vpn_client client_runtime =
      or_text client_runtime
        (if vpn_client == codes "cisco-secure-client" then codes "host" else codes "container")

  unfoldable pub network_of : Text → Text → Text
  network_of client_runtime mode =
      or_text mode (if client_runtime == codes "host" then codes "host" else codes "service-vpn")

  unfoldable pub resolve_vpn_profile : VpnProfile
  unfolding given client_of runtime_of network_of
  resolve_vpn_profile =
      let vpn_type = given (codes "vpn_type") in
      let vpn_client = client_of vpn_type (given (codes "vpn_client")) in
      let client_runtime = runtime_of vpn_client (given (codes "client_runtime")) in
      record {
        vpn_type = vpn_type;
        vpn_client = vpn_client;
        host = given (codes "host");
        port = given (codes "port");
        profile_name = given (codes "profile_name");
        usergroup = given (codes "usergroup");
        client_runtime = client_runtime;
        worker_network_mode = network_of client_runtime (given (codes "worker_network_mode"));
      }

pub data SlotState : Type 0 where
  up starting failed down : SlotState

unfoldable pub slot_state : Bool → Bool → ℕ → ℕ → SlotState
slot_state appliance_exists vpn_running desired_workers running_workers =
    if vpn_running && ltb 0 desired_workers && leb desired_workers running_workers
    then up
    else if vpn_running || ltb 0 running_workers
    then starting
    else if appliance_exists || ltb 0 desired_workers
    then failed
    else down

-- A slot is reported down exactly if it has no appliance, no running VPN and no worker, wanted or
-- running.
pub slot_state-down :
    (appliance_exists vpn_running : Bool) (desired_workers running_workers : ℕ)
    → (slot_state appliance_exists vpn_running desired_workers running_workers ≡ down) ↔ (
        (appliance_exists ≡ false)
        × (vpn_running ≡ false)
        × (desired_workers ≡ 0)
        × (running_workers ≡ 0))
unfolding slot_state
slot_state-down a v d r = (λ h. ground arith, λ h. ground arith)
