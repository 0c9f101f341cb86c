-- ===== src/Delegation.antt =====
-- Delegated access, blocks_genesis/_delegation.
pub mod Tests
pub mod Signature
pub mod Flow
pub mod GrantStore
pub mod GrantFactory
pub mod Exchange
pub mod Tokens
pub mod Headers
pub mod Endpoint
