-- ===== src/Messaging.antt =====
-- Messages and their workers, blocks_genesis/_message.
pub mod Consumer
pub mod Context
pub mod Rabbit
pub mod Client
pub mod Azure
pub mod Senders
pub mod Configuration
pub mod Topology
mod Tests
