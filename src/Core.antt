-- ===== src/Core.antt =====
-- The package core.
pub mod Types
pub mod Digest
pub mod BlockChain
