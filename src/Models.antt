-- ===== src/Models.antt =====
-- core-runtime/src/models: which models are loaded, how requests reach them, and their replacement.
pub mod Registry
pub mod Router
pub mod Drain
pub mod Lifecycle
pub mod Swap
pub mod Pool
pub mod Version
pub mod Tests
