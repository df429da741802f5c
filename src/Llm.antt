-- ===== src/Llm.antt =====
-- loop/src/llm and loop/src/compaction.rs: the reference agent's calls of the language model.
pub mod Types
pub mod Compaction
pub mod Retry
pub mod Stream
pub mod Sse
pub mod Resolve
