-- ===== src/Domain/Transformer/Bounded/Arithmetic.antt =====
-- crates/domain/src/transformer/bounded.rs and bounded_ops.rs: the arithmetic
-- with declared bounds.
use bml.Float.{Float}
use bml.Domain.Ast.{NodeId}
use bml.Domain.Transformer.{Build, ◌>>=◌}
use bml.Domain.Transformer.Arithmetic.{sub, log2, exp2, mul_signed}

module _ {float : Float} where
  -- `- x`, for `x` below `c`.
  unfoldable pub bounded_neg : NodeId → NodeId → Build float NodeId
  bounded_neg x c = do difference ← sub c x; sub difference c

  -- `x + y`, with the shift `c`.
  unfoldable pub bounded_add : NodeId → NodeId → NodeId → Build float NodeId
  bounded_add x y c = do difference ← sub c x; remainder ← sub difference y; sub c remainder

  -- `x + y`, for positive `x`.
  unfoldable pub bounded_positive_add : NodeId → NodeId → NodeId → Build float NodeId
  bounded_positive_add x y c = do negative ← bounded_neg y c; sub x negative

  -- `x * y`, for positive operands.
  unfoldable pub bounded_positive_mul : NodeId → NodeId → NodeId → Build float NodeId
  bounded_positive_mul x y c64 = do
    log_x ← log2 x
    log_y ← log2 y
    exponent ← bounded_add log_x log_y c64
    exp2 exponent

  -- `x` scaled by its bound.
  unfoldable pub bounded_normalize : NodeId → NodeId → NodeId → NodeId → NodeId → Build float NodeId
  bounded_normalize x twice_bound inverse_bound c2 c64 = do
    shifted ← bounded_add x twice_bound twice_bound
    scaled ← bounded_positive_mul shifted inverse_bound c64
    sub scaled c2

  -- `bounded_product_from_normalized`
  unfoldable pub bounded_product :
      NodeId → NodeId → NodeId → NodeId → NodeId → NodeId → Build float NodeId
  bounded_product x y product_bound twice_product_bound c2 c64 = do
    product ← mul_signed x y
    shifted ← bounded_add product c2 c2
    scaled ← bounded_positive_mul shifted product_bound c64
    sub scaled twice_product_bound

  -- The product of operands with their bounds and the products of these.
  unfoldable pub product_with_literals :
      NodeId
      → NodeId
      → NodeId
      → NodeId
      → NodeId
      → NodeId
      → NodeId
      → NodeId
      → NodeId
      → NodeId
      → Build float NodeId
  product_with_literals x y c64 c2 p0 p1 p2 p3 p4 p5 = do
    unit_x ← bounded_normalize x p0 p1 c2 c64
    unit_y ← bounded_normalize y p2 p3 c2 c64
    bounded_product unit_x unit_y p4 p5 c2 c64
