-- ===== src/Tunnel.antt =====
-- server/src/tunnel and server/src/hooks: what the server does with the messages of an agent.
pub mod Hooks
pub mod Dispatch
pub mod Streams
pub mod ReadLoop
