-- ===== src/Net.antt =====
-- src/net/base: escapes.
pub mod Escape
pub mod Pem
