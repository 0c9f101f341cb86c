-- ===== src/Tenancy.antt =====
-- The tenants, blocks_genesis/_tenant: their configuration, the cache that holds it, and the messages
-- that keep it.
pub mod Tenant
pub mod Service
pub mod Updates
pub mod Loading
mod Tests
