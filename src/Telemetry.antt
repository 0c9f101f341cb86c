-- ===== src/Telemetry.antt =====
-- Logs and traces, blocks_genesis/_lmt.
pub mod Logs
pub mod Traces
