-- ===== src/Security.antt =====
-- core-runtime/src/security: what leaves the runtime is freed of personal data first.
pub mod Stream
