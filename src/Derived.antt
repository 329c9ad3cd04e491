-- ===== src/Derived.antt =====
-- src/fin_data_platform/derived: the dependency graph of the factors.
pub mod Graph
pub mod Closure
pub mod Cycles
