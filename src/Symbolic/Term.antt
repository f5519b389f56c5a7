-- ===== src/Symbolic/Term.antt =====
-- `ClosedTerm` of crates/domain/src/symbolic.rs.
use bml.Prelude.{ℕ, ◌+◌}

-- The constructor `op` is also the function `ClosedTerm::op`, which boxes its operands.
pub data ClosedTerm : Type 0 where
  one : ClosedTerm
  op : ClosedTerm → ClosedTerm → ClosedTerm

-- The number of nodes of a tree.
unfoldable pub size : ClosedTerm → ℕ
size one = 1
size (op l r) = size l + size r + 1
