-- ===== src/Operator.antt =====
-- main.go: the start of the operator.
pub mod Namespaces
pub mod Start
