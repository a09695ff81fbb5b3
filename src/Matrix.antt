-- ===== src/Matrix.antt =====
-- The connectivity matrix of
-- plugins/nautobot-app-nautobot-connectivity-matrix/nautobot_connectivity_matrix/.
pub mod Rows
pub mod Validation
pub mod Colors
pub mod Order
pub mod Batch
pub mod Actions
pub mod Interfaces
pub mod Materialize
mod Tests
