-- ===== src/Domain/Transformer/Bounded/Stages.antt =====
-- crates/domain/src/transformer/bounded.rs and bounded_ops.rs: the stages
-- after their literals, the nodes of a list.
use bml.Prelude.{List, get_or}
use bml.Float.{Float}
use bml.Domain.Ast.{NodeId}
use bml.Domain.Transformer.{Build, done, ◌>>=◌}
use bml.Domain.Transformer.Arithmetic.{mul_signed, log2, exp2, sub, apply}
use bml.Domain.Transformer.Bounded.Arithmetic.{
  bounded_normalize, bounded_positive_add, bounded_positive_mul, bounded_product, bounded_neg,
  bounded_add, product_with_literals,
}

module _ {float : Float} where
  -- The total of the squares with that of the next element.
  unfoldable pub rms_reduce : List NodeId → NodeId → NodeId → Build float NodeId
  rms_reduce c total x = do
    normalized ← bounded_normalize x (get_or c 2 0) (get_or c 3 0) (get_or c 1 0) (get_or c 0 0)
    square ← mul_signed normalized normalized
    bounded_positive_add total square (get_or c 1 0)

  -- The inverse root, and the shift of the output.
  unfoldable pub rms_prepare : List NodeId → NodeId → NodeId → Build float (NodeId × NodeId)
  rms_prepare c unit total = do
    variance ← bounded_positive_mul total (get_or c 5 0) (get_or c 0 0)
    log_variance ← log2 variance
    normalized_log ←
        bounded_normalize log_variance (get_or c 8 0) (get_or c 9 0) (get_or c 1 0) (get_or c 0 0)
    normalized_half ←
        bounded_normalize (get_or c 6 0) (get_or c 1 0) unit (get_or c 1 0) (get_or c 0 0)
    half_log ←
        bounded_product normalized_log normalized_half (get_or c 7 0) (get_or c 8 0) (get_or c 1 0)
          (get_or c 0 0)
    root ← exp2 half_log
    log_root ← log2 root
    minus_log_root ← bounded_neg log_root (get_or c 0 0)
    inverse_root ← exp2 minus_log_root
    shift ← bounded_positive_mul (get_or c 10 0) root (get_or c 0 0)
    done (inverse_root, shift)

  -- The weighted output of a normalized element.
  unfoldable pub rms_weighted : List NodeId → NodeId → NodeId → NodeId → NodeId → Build float NodeId
  rms_weighted c x weight inverse_root shift = do
    numerator ← bounded_add x shift (get_or c 1 0)
    ratio ← bounded_positive_mul numerator inverse_root (get_or c 0 0)
    normalized_x ← sub ratio (get_or c 10 0)
    unit_x ←
        bounded_normalize normalized_x (get_or c 11 0) (get_or c 12 0) (get_or c 1 0) (get_or c 0 0)
    unit_weight ←
        bounded_normalize weight (get_or c 13 0) (get_or c 14 0) (get_or c 1 0) (get_or c 0 0)
    bounded_product unit_x unit_weight (get_or c 15 0) (get_or c 16 0) (get_or c 1 0) (get_or c 0 0)

  -- The output stage.
  unfoldable pub rms_output : List NodeId → NodeId → NodeId → NodeId → NodeId → Build float NodeId
  rms_output c x weight inverse_root shift = do
    normalized ← bounded_normalize x (get_or c 2 0) (get_or c 3 0) (get_or c 1 0) (get_or c 0 0)
    rms_weighted c normalized weight inverse_root shift

  -- The exponential of a score below the maximum.
  unfoldable pub softmax_exp : List NodeId → NodeId → NodeId → Build float NodeId
  softmax_exp c score maximum = do
    negative_maximum ← bounded_neg maximum (get_or c 2 0)
    shifted ← bounded_add score negative_maximum (get_or c 2 0)
    exponent ←
        product_with_literals shifted (get_or c 3 0) (get_or c 0 0) (get_or c 1 0) (get_or c 4 0)
          (get_or c 5 0) (get_or c 6 0) (get_or c 7 0) (get_or c 8 0) (get_or c 9 0)
    exp2 exponent

  -- The reciprocal of the total.
  unfoldable pub softmax_inverse : List NodeId → NodeId → Build float NodeId
  softmax_inverse c total = do
    log_total ← log2 total
    negative_log ← bounded_neg log_total (get_or c 0 0)
    exp2 negative_log

  -- The accumulator with the next product.
  unfoldable pub bounded_dot_step : List NodeId → NodeId → NodeId → NodeId → Build float NodeId
  bounded_dot_step c accumulator left right = do
    product ←
        product_with_literals left right (get_or c 0 0) (get_or c 1 0) (get_or c 2 0) (get_or c 3 0)
          (get_or c 4 0) (get_or c 5 0) (get_or c 6 0) (get_or c 7 0)
    bounded_add accumulator product (get_or c 8 0)

  -- The rotation of a pair.
  unfoldable pub bounded_rotation :
      List NodeId → NodeId → NodeId → NodeId → NodeId → Build float (NodeId × NodeId)
  bounded_rotation c x y cosine sine = do
    xc ←
        product_with_literals x cosine (get_or c 0 0) (get_or c 1 0) (get_or c 2 0) (get_or c 3 0)
          (get_or c 4 0) (get_or c 5 0) (get_or c 6 0) (get_or c 7 0)
    ys ←
        product_with_literals y sine (get_or c 0 0) (get_or c 1 0) (get_or c 2 0) (get_or c 3 0)
          (get_or c 4 0) (get_or c 5 0) (get_or c 6 0) (get_or c 7 0)
    minus_ys ← bounded_neg ys (get_or c 8 0)
    first ← bounded_add xc minus_ys (get_or c 8 0)
    xs ←
        product_with_literals x sine (get_or c 0 0) (get_or c 1 0) (get_or c 2 0) (get_or c 3 0)
          (get_or c 4 0) (get_or c 5 0) (get_or c 6 0) (get_or c 7 0)
    yc ←
        product_with_literals y cosine (get_or c 0 0) (get_or c 1 0) (get_or c 2 0) (get_or c 3 0)
          (get_or c 4 0) (get_or c 5 0) (get_or c 6 0) (get_or c 7 0)
    second ← bounded_add xs yc (get_or c 8 0)
    done (first, second)

  -- The numerator of the sigmoid, scaled.
  unfoldable pub sigmoid_numerator : List NodeId → NodeId → Build float NodeId
  sigmoid_numerator c gate = do
    shifted ← bounded_add gate (get_or c 2 0) (get_or c 3 0)
    exponent ←
        product_with_literals shifted (get_or c 5 0) (get_or c 0 0) (get_or c 1 0) (get_or c 6 0)
          (get_or c 7 0) (get_or c 8 0) (get_or c 9 0) (get_or c 10 0) (get_or c 11 0)
    exp2 exponent

  -- The denominator in the extended range.
  unfoldable pub wide_denominator : List NodeId → NodeId → Build float NodeId
  wide_denominator c numerator = do
    log_numerator ← log2 numerator
    apply log_numerator (get_or c 24 0)

  -- The gate times the sigmoid times the other branch.
  unfoldable pub swiglu_output :
      List NodeId → NodeId → NodeId → NodeId → NodeId → Build float NodeId
  swiglu_output c gate up numerator denominator = do
    log_denominator ← log2 denominator
    minus_log ← bounded_neg log_denominator (get_or c 0 0)
    inverse ← exp2 minus_log
    sigmoid ← bounded_positive_mul numerator inverse (get_or c 0 0)
    silu ←
        product_with_literals gate sigmoid (get_or c 0 0) (get_or c 1 0) (get_or c 12 0)
          (get_or c 13 0) (get_or c 14 0) (get_or c 15 0) (get_or c 16 0) (get_or c 17 0)
    product_with_literals silu up (get_or c 0 0) (get_or c 1 0) (get_or c 18 0) (get_or c 19 0)
        (get_or c 20 0) (get_or c 21 0) (get_or c 22 0) (get_or c 23 0)
