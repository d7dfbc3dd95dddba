-- ===== src/Controller.antt =====
-- controllers/zookeepercluster_controller.go: the reconciliation of a ZookeeperCluster.
pub mod Interfaces
pub mod Op
pub mod Version
pub mod Upgrade
pub mod StatefulSets
pub mod Services
pub mod Members
pub mod Finalizers
pub mod Loop
pub mod Ensemble
