-- ===== src/Ha.antt =====
-- The highly available K3s clusters of internal/cluster.
pub mod Types
pub mod Names
pub mod Config
pub mod Inspect
pub mod Preflight
pub mod Status
pub mod Etcd
pub mod DesiredState
pub mod Addresses
pub mod Members
pub mod Queries
pub mod Infrastructure
pub mod Proxy
pub mod Lock
pub mod Files
pub mod Lifecycle
