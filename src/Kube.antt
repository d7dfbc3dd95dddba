-- ===== src/Kube.antt =====
-- The Kubernetes objects that the operator builds and reads: of each third-party struct the fields
-- that the program names. What it only passes through stands as a serialised value, `Json`.
pub mod Json
pub mod Meta
pub mod Pods
pub mod Copies
pub mod Objects
