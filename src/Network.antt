-- ===== src/Network.antt =====
-- src/network: the peers that are known, how they are found, and how messages reach them.
pub mod ClusterView
pub mod Discovery
pub mod Transport
