-- ===== src/Inventory.antt =====
-- The worker inventory of the app plugins/nautobot-app-vpn-manager/nautobot_vpn_manager/.
pub mod Drift
pub mod Live
pub mod Filters
mod Tests
