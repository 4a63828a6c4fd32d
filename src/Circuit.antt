-- ===== src/Circuit.antt =====
-- The three circuit breakers of the extension.
pub mod Capability
pub mod Native
pub mod Route
