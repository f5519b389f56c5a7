-- ===== src/Domain/Transformer/Formula/Bounded.antt =====
-- The numbers that the arithmetic with declared bounds of crates/domain/src/transformer/bounded.rs
-- stands for.
use bml.Float.{Float}
use bml.Domain.Transformer.Formula.{sub, log2, exp2, mul_signed}

module _ (float : Float) where
  open float use {F64}

  unfoldable pub bounded_neg : F64 → F64 → F64
  bounded_neg x c = let difference = sub float c x in sub float difference c

  unfoldable pub bounded_add : F64 → F64 → F64 → F64
  bounded_add x y c =
      let difference = sub float c x in
      let remainder = sub float difference y in sub float c remainder

  unfoldable pub bounded_positive_add : F64 → F64 → F64 → F64
  bounded_positive_add x y c = let negative = bounded_neg y c in sub float x negative

  unfoldable pub bounded_positive_mul : F64 → F64 → F64 → F64
  bounded_positive_mul x y c64 =
      let log_x = log2 float x in
      let log_y = log2 float y in let exponent = bounded_add log_x log_y c64 in exp2 float exponent

  unfoldable pub bounded_normalize : F64 → F64 → F64 → F64 → F64 → F64
  bounded_normalize x twice_bound inverse_bound c2 c64 =
      let shifted = bounded_add x twice_bound twice_bound in
      let scaled = bounded_positive_mul shifted inverse_bound c64 in sub float scaled c2

  unfoldable pub bounded_product : F64 → F64 → F64 → F64 → F64 → F64 → F64
  bounded_product x y product_bound twice_product_bound c2 c64 =
      let product = mul_signed float x y in
      let shifted = bounded_add product c2 c2 in
      let scaled = bounded_positive_mul shifted product_bound c64 in
      sub float scaled twice_product_bound

  unfoldable pub product_with_literals :
      F64 → F64 → F64 → F64 → F64 → F64 → F64 → F64 → F64 → F64 → F64
  product_with_literals x y c64 c2 p0 p1 p2 p3 p4 p5 =
      let unit_x = bounded_normalize x p0 p1 c2 c64 in
      let unit_y = bounded_normalize y p2 p3 c2 c64 in bounded_product unit_x unit_y p4 p5 c2 c64
