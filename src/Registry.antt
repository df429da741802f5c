-- ===== src/Registry.antt =====
-- server/src/registry/mod.rs: which agents are connected, and the frames kept for those that are not.
pub mod Queue
pub mod Agent
