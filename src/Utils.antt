-- ===== src/Utils.antt =====
-- pkg/utils
pub mod Finalizer
pub mod Zookeeper
pub mod Leader
