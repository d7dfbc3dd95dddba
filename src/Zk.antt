-- ===== src/Zk.antt =====
-- pkg/zk: the objects that make up a cluster.
pub mod Labels
pub mod Names
pub mod Config
pub mod Services
pub mod Pods
pub mod Workloads
pub mod Sync
pub mod Reach
