-- ===== src/Domain.antt =====
-- crates/domain/src: the operator, the nodes of the execution graph and their column layout.
pub mod Operator
pub mod Ast
pub mod Soa
pub mod Transformer
mod Tests
