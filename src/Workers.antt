-- ===== src/Workers.antt =====
-- The remote-worker registry of vpn/VPN_Control_API/app.py.
pub mod Errors
pub mod Queues
pub mod Registry
pub mod Endpoints
mod Tests
