-- ===== src/Network.antt =====
-- The package network.
pub mod PeerNode
pub mod Trustee
pub mod Platform
