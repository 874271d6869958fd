-- ===== src/Common.antt =====
-- The package common.
pub mod Set
