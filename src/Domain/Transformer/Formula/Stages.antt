-- ===== src/Domain/Transformer/Formula/Stages.antt =====
-- The numbers that the stages of crates/domain/src/transformer/bounded.rs and bounded_ops.rs
-- stand for, from the values of their literals.
use bml.Prelude.{List, get_or}
use bml.Float.{Float}
use bml.Domain.Transformer.Formula.{mul_signed, log2, exp2, sub, apply}
use bml.Domain.Transformer.Formula.Bounded.{
  bounded_normalize, bounded_positive_add, bounded_positive_mul, bounded_product, bounded_neg,
  bounded_add, product_with_literals,
}

module _ (float : Float) where
  open float use {F64}

  unfoldable pub rms_reduce : List F64 → F64 → F64 → F64
  rms_reduce c total x =
      let normalized =
        bounded_normalize float x (get_or c 2 float.zero) (get_or c 3 float.zero)
          (get_or c 1 float.zero) (get_or c 0 float.zero) in
      let square = mul_signed float normalized normalized in
      bounded_positive_add float total square (get_or c 1 float.zero)

  unfoldable pub rms_prepare : List F64 → F64 → F64 → F64 × F64
  rms_prepare c unit total =
      let variance =
        bounded_positive_mul float total (get_or c 5 float.zero) (get_or c 0 float.zero) in
      let log_variance = log2 float variance in
      let normalized_log =
        bounded_normalize float log_variance (get_or c 8 float.zero) (get_or c 9 float.zero)
          (get_or c 1 float.zero) (get_or c 0 float.zero) in
      let normalized_half =
        bounded_normalize float (get_or c 6 float.zero) (get_or c 1 float.zero) unit
          (get_or c 1 float.zero) (get_or c 0 float.zero) in
      let half_log =
        bounded_product float normalized_log normalized_half (get_or c 7 float.zero)
          (get_or c 8 float.zero) (get_or c 1 float.zero) (get_or c 0 float.zero) in
      let root = exp2 float half_log in
      let log_root = log2 float root in
      let minus_log_root = bounded_neg float log_root (get_or c 0 float.zero) in
      let inverse_root = exp2 float minus_log_root in
      let shift =
        bounded_positive_mul float (get_or c 10 float.zero) root (get_or c 0 float.zero) in
      (inverse_root, shift)

  unfoldable pub rms_weighted : List F64 → F64 → F64 → F64 → F64 → F64
  rms_weighted c x weight inverse_root shift =
      let numerator = bounded_add float x shift (get_or c 1 float.zero) in
      let ratio = bounded_positive_mul float numerator inverse_root (get_or c 0 float.zero) in
      let normalized_x = sub float ratio (get_or c 10 float.zero) in
      let unit_x =
        bounded_normalize float normalized_x (get_or c 11 float.zero) (get_or c 12 float.zero)
          (get_or c 1 float.zero) (get_or c 0 float.zero) in
      let unit_weight =
        bounded_normalize float weight (get_or c 13 float.zero) (get_or c 14 float.zero)
          (get_or c 1 float.zero) (get_or c 0 float.zero) in
      bounded_product float unit_x unit_weight (get_or c 15 float.zero) (get_or c 16 float.zero)
        (get_or c 1 float.zero) (get_or c 0 float.zero)

  unfoldable pub rms_output : List F64 → F64 → F64 → F64 → F64 → F64
  rms_output c x weight inverse_root shift =
      let normalized =
        bounded_normalize float x (get_or c 2 float.zero) (get_or c 3 float.zero)
          (get_or c 1 float.zero) (get_or c 0 float.zero) in
      rms_weighted c normalized weight inverse_root shift

  unfoldable pub softmax_exp : List F64 → F64 → F64 → F64
  softmax_exp c score maximum =
      let negative_maximum = bounded_neg float maximum (get_or c 2 float.zero) in
      let shifted = bounded_add float score negative_maximum (get_or c 2 float.zero) in
      let exponent =
        product_with_literals float shifted (get_or c 3 float.zero) (get_or c 0 float.zero)
          (get_or c 1 float.zero) (get_or c 4 float.zero) (get_or c 5 float.zero)
          (get_or c 6 float.zero) (get_or c 7 float.zero) (get_or c 8 float.zero)
          (get_or c 9 float.zero) in
      exp2 float exponent

  unfoldable pub softmax_inverse : List F64 → F64 → F64
  softmax_inverse c total =
      let log_total = log2 float total in
      let negative_log = bounded_neg float log_total (get_or c 0 float.zero) in
      exp2 float negative_log

  unfoldable pub bounded_dot_step : List F64 → F64 → F64 → F64 → F64
  bounded_dot_step c accumulator left right =
      let product =
        product_with_literals float left right (get_or c 0 float.zero) (get_or c 1 float.zero)
          (get_or c 2 float.zero) (get_or c 3 float.zero) (get_or c 4 float.zero)
          (get_or c 5 float.zero) (get_or c 6 float.zero) (get_or c 7 float.zero) in
      bounded_add float accumulator product (get_or c 8 float.zero)

  unfoldable pub bounded_rotation : List F64 → F64 → F64 → F64 → F64 → F64 × F64
  bounded_rotation c x y cosine sine =
      let xc =
        product_with_literals float x cosine (get_or c 0 float.zero) (get_or c 1 float.zero)
          (get_or c 2 float.zero) (get_or c 3 float.zero) (get_or c 4 float.zero)
          (get_or c 5 float.zero) (get_or c 6 float.zero) (get_or c 7 float.zero) in
      let ys =
        product_with_literals float y sine (get_or c 0 float.zero) (get_or c 1 float.zero)
          (get_or c 2 float.zero) (get_or c 3 float.zero) (get_or c 4 float.zero)
          (get_or c 5 float.zero) (get_or c 6 float.zero) (get_or c 7 float.zero) in
      let minus_ys = bounded_neg float ys (get_or c 8 float.zero) in
      let first = bounded_add float xc minus_ys (get_or c 8 float.zero) in
      let xs =
        product_with_literals float x sine (get_or c 0 float.zero) (get_or c 1 float.zero)
          (get_or c 2 float.zero) (get_or c 3 float.zero) (get_or c 4 float.zero)
          (get_or c 5 float.zero) (get_or c 6 float.zero) (get_or c 7 float.zero) in
      let yc =
        product_with_literals float y cosine (get_or c 0 float.zero) (get_or c 1 float.zero)
          (get_or c 2 float.zero) (get_or c 3 float.zero) (get_or c 4 float.zero)
          (get_or c 5 float.zero) (get_or c 6 float.zero) (get_or c 7 float.zero) in
      let second = bounded_add float xs yc (get_or c 8 float.zero) in (first, second)

  unfoldable pub sigmoid_numerator : List F64 → F64 → F64
  sigmoid_numerator c gate =
      let shifted = bounded_add float gate (get_or c 2 float.zero) (get_or c 3 float.zero) in
      let exponent =
        product_with_literals float shifted (get_or c 5 float.zero) (get_or c 0 float.zero)
          (get_or c 1 float.zero) (get_or c 6 float.zero) (get_or c 7 float.zero)
          (get_or c 8 float.zero) (get_or c 9 float.zero) (get_or c 10 float.zero)
          (get_or c 11 float.zero) in
      exp2 float exponent

  unfoldable pub wide_denominator : List F64 → F64 → F64
  wide_denominator c numerator =
      let log_numerator = log2 float numerator in apply float log_numerator (get_or c 24 float.zero)

  unfoldable pub swiglu_output : List F64 → F64 → F64 → F64 → F64 → F64
  swiglu_output c gate up numerator denominator =
      let log_denominator = log2 float denominator in
      let minus_log = bounded_neg float log_denominator (get_or c 0 float.zero) in
      let inverse = exp2 float minus_log in
      let sigmoid = bounded_positive_mul float numerator inverse (get_or c 0 float.zero) in
      let silu =
        product_with_literals float gate sigmoid (get_or c 0 float.zero) (get_or c 1 float.zero)
          (get_or c 12 float.zero) (get_or c 13 float.zero) (get_or c 14 float.zero)
          (get_or c 15 float.zero) (get_or c 16 float.zero) (get_or c 17 float.zero) in
      product_with_literals float silu up (get_or c 0 float.zero) (get_or c 1 float.zero)
        (get_or c 18 float.zero) (get_or c 19 float.zero) (get_or c 20 float.zero)
        (get_or c 21 float.zero) (get_or c 22 float.zero) (get_or c 23 float.zero)
