-- ===== src/Api.antt =====
-- api/v1beta1: the ZookeeperCluster resource.
pub mod Types
pub mod Constants
pub mod Copies
pub mod Defaults
pub mod Spec
pub mod Ports
pub mod Status
