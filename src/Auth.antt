-- ===== src/Auth.antt =====
-- The authentication package, blocks_genesis/_auth.
pub mod Algorithm
pub mod Tests
pub mod Provider
pub mod ProviderStore
pub mod Selector
pub mod ClaimsMapping
pub mod Host
pub mod Exec
pub mod Certificate
pub mod Keys
pub mod Extraction
pub mod Permission
pub mod Primary
pub mod Fallback
pub mod Authenticate
