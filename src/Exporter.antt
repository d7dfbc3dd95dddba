-- ===== src/Exporter.antt =====
-- cmd/exporter: the command that writes the objects of a cluster to YAML files.
pub mod Files
pub mod Generate
pub mod Command
