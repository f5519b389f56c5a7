-- ===== src/Compiler.antt =====
-- crates/compiler/src: the deduplicated graph.
mod Tests
pub mod HashCons
pub mod Rpn
pub mod Dag
