-- ===== src/Symbolic.antt =====
-- crates/domain/src/symbolic.rs: the free algebra of terms, independent of its interpretation.
pub mod Term
pub mod Basis
pub mod Open
mod Tests
