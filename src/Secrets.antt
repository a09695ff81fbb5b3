-- ===== src/Secrets.antt =====
-- Secrets from the environment and from Vault:
-- plugins/shms-secret-resolver/shms_secret_resolver/resolver.py.
pub mod Json
pub mod Vault
pub mod Resolver
mod Tests
