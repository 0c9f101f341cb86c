-- ===== src/Cache.antt =====
-- The cache client, blocks_genesis/_cache.
pub mod Subscriptions
