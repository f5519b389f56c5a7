-- ===== src/Domain/Transformer/Costs/Bounded.antt =====
-- The nodes that the arithmetic with declared bounds appends.
use bml.Float.{Float}
use bml.Domain.Ast.{NodeId}
use bml.Domain.Transformer.Costs.{Costs, bind-Costs}
use bml.Domain.Transformer.Costs.Arithmetic.{exp2-Costs, log2-Costs, sub-Costs, mul_signed-Costs}
use bml.Domain.Transformer.Bounded.Arithmetic as Bounded

module _ {float : Float} where
  pub bounded_neg-Costs : (x c : NodeId) → Costs {float = float} (Bounded.bounded_neg x c) 18 0
  unfolding Bounded.bounded_neg
  bounded_neg-Costs x c = bind-Costs 9 9 0 0 (sub-Costs c x) λ difference. sub-Costs difference c

  pub bounded_add-Costs : (x y c : NodeId) → Costs {float = float} (Bounded.bounded_add x y c) 27 0
  unfolding Bounded.bounded_add
  bounded_add-Costs x y c =
      bind-Costs 9 18 0 0 (sub-Costs c x)
        λ difference. bind-Costs 9 9 0 0 (sub-Costs difference y) λ remainder. sub-Costs c remainder

  pub bounded_positive_add-Costs :
      (x y c : NodeId) → Costs {float = float} (Bounded.bounded_positive_add x y c) 27 0
  unfolding Bounded.bounded_positive_add
  bounded_positive_add-Costs x y c =
      bind-Costs 18 9 0 0 (bounded_neg-Costs y c) λ negative. sub-Costs x negative

  pub bounded_positive_mul-Costs :
      (x y c64 : NodeId) → Costs {float = float} (Bounded.bounded_positive_mul x y c64) 41 0
  unfolding Bounded.bounded_positive_mul
  bounded_positive_mul-Costs x y c64 = bind-Costs 6 35 0 0 (log2-Costs x) λ log_x.
      bind-Costs 6 29 0 0 (log2-Costs y) λ log_y.
        bind-Costs 27 2 0 0 (bounded_add-Costs log_x log_y c64) λ exponent. exp2-Costs exponent

  pub bounded_normalize-Costs :
      (x twice_bound inverse_bound c2 c64 : NodeId)
      → Costs {float = float} (Bounded.bounded_normalize x twice_bound inverse_bound c2 c64) 77 0
  unfolding Bounded.bounded_normalize
  bounded_normalize-Costs x twice_bound inverse_bound c2 c64 =
      bind-Costs 27 50 0 0 (bounded_add-Costs x twice_bound twice_bound) λ shifted.
        bind-Costs 41 9 0 0 (bounded_positive_mul-Costs shifted inverse_bound c64)
          λ scaled. sub-Costs scaled c2

  pub bounded_product-Costs :
      (x y product_bound twice_product_bound c2 c64 : NodeId)
      → Costs {float = float}
          (Bounded.bounded_product x y product_bound twice_product_bound c2 c64)
          274
          0
  unfolding Bounded.bounded_product
  bounded_product-Costs x y product_bound twice_product_bound c2 c64 =
      bind-Costs 197 77 0 0 (mul_signed-Costs x y) λ product.
        bind-Costs 27 50 0 0 (bounded_add-Costs product c2 c2) λ shifted.
          bind-Costs 41 9 0 0 (bounded_positive_mul-Costs shifted product_bound c64)
            λ scaled. sub-Costs scaled twice_product_bound

  pub product_with_literals-Costs :
      (x y c64 c2 p0 p1 p2 p3 p4 p5 : NodeId)
      → Costs {float = float} (Bounded.product_with_literals x y c64 c2 p0 p1 p2 p3 p4 p5) 428 0
  unfolding Bounded.product_with_literals
  product_with_literals-Costs x y c64 c2 p0 p1 p2 p3 p4 p5 =
      bind-Costs 77 351 0 0 (bounded_normalize-Costs x p0 p1 c2 c64) λ unit_x.
        bind-Costs 77 274 0 0 (bounded_normalize-Costs y p2 p3 c2 c64)
          λ unit_y. bounded_product-Costs unit_x unit_y p4 p5 c2 c64
