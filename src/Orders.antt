-- ===== src/Orders.antt =====
-- Cisco orders: the synchronisation, the line numbers and the serial numbers, of sync.py, line_items.py
-- and serials.py under plugins/nautobot-app-nbcot/nbcot/cisco/.
pub mod Numbers
pub mod Serials
pub mod Lines
pub mod Changes
pub mod Sync
mod Tests
