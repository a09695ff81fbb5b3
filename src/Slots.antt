-- ===== src/Slots.antt =====
-- The VPN slots of vpn/VPN_Control_API/app.py: their names and profiles, the file of the host slots, and
-- the requests that start, stop and scale them.
pub mod Context
pub mod Profile
pub mod Host
pub mod Environment
pub mod Requests
mod Tests
