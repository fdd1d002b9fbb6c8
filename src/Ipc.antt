-- ===== src/Ipc.antt =====
-- core-runtime/src/ipc: what the server of the local socket keeps, and the packed encoding of tokens.
pub mod Connections
pub mod Encoding
pub mod Auth
