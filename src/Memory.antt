-- ===== src/Memory.antt =====
-- core-runtime/src/memory: the page table and the KV cache over it.
pub mod Paged
pub mod KvCache
pub mod Limits
pub mod Arena
pub mod PromptCache
