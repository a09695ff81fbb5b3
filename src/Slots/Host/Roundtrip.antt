-- ===== src/Slots/Host/Roundtrip.antt =====
-- A host slot is read back as it was recorded.
use nautobot_docker_compose.Base.{false, list_eq, nat_eq, ◌≡◌}
use nautobot_docker_compose.Slots.Host.{SlotContext, VpnProfile, text_le, Text, member_of}
use nautobot_docker_compose.Base.Text.{is_empty, Text}
use nautobot_docker_compose.Secrets.Json.{Members, Json, member_of}
use nautobot_docker_compose.Base.Sort.{text_le}
use nautobot_docker_compose.Slots.Context.{SlotContext}
use nautobot_docker_compose.Slots.Profile.{VpnProfile}

module _ (repr : Members → Text) where
  -- The profile names its kind, client, runtime and network, which have defaults where they are empty.
  abbrev pub IsFilled : VpnProfile → Type 0
  IsFilled profile =
      (is_empty profile.vpn_type ≡ false)
      × (is_empty profile.vpn_client ≡ false)
      × (is_empty profile.client_runtime ≡ false)
      × (is_empty profile.worker_network_mode ≡ false)
