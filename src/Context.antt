-- ===== src/Context.antt =====
-- blocks_genesis/_auth/blocks_context.py: the identity of a request or a message.
pub mod Tests
pub mod Record
pub mod Fields
pub mod Transport
pub mod Claims
pub mod Domain
pub use Record.{BlocksContext, empty_context}
