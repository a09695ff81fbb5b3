-- ===== src/Reconcile.antt =====
-- The job that reconciles tenant queues: jobs/vpn_queue_reconciliation.py.
pub mod Names
pub mod Database
pub mod Steps
pub mod Run
mod Tests
