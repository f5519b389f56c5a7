-- ===== src/Number.antt =====
-- crates/domain/src/number: terms stored as the words of a binary prefix code.
mod Tests
pub mod Words
pub mod Prefix
pub mod Encoding
pub mod Operations
pub mod Methods
pub mod Stream
