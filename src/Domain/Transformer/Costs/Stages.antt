-- ===== src/Domain/Transformer/Costs/Stages.antt =====
-- The nodes that the stages with declared bounds append after their literals.
use bml.Prelude.{List, get_or}
use bml.Float.{Float}
use bml.Domain.Ast.{NodeId}
use bml.Domain.Transformer.Costs.{Costs, done-Costs, bind-Costs, apply-Costs}
use bml.Domain.Transformer.Costs.Arithmetic.{exp2-Costs, log2-Costs, sub-Costs, mul_signed-Costs}
use bml.Domain.Transformer.Costs.Bounded.{
  bounded_neg-Costs, bounded_add-Costs, bounded_positive_add-Costs, bounded_positive_mul-Costs,
  bounded_normalize-Costs, bounded_product-Costs, product_with_literals-Costs,
}
use bml.Domain.Transformer.Bounded.Stages as Stages

module _ {float : Float} where
  pub rms_reduce-Costs :
      (c : List NodeId) (total x : NodeId)
      → Costs {float = float} (Stages.rms_reduce c total x) 301 0
  unfolding Stages.rms_reduce
  rms_reduce-Costs c total x =
      bind-Costs 77 224 0 0
        (bounded_normalize-Costs x (get_or c 2 0) (get_or c 3 0) (get_or c 1 0) (get_or c 0 0))
        λ normalized.
          bind-Costs 197 27 0 0 (mul_signed-Costs normalized normalized)
            λ square. bounded_positive_add-Costs total square (get_or c 1 0)

  pub rms_prepare-Costs :
      (c : List NodeId) (unit total : NodeId)
      → Costs {float = float} (Stages.rms_prepare c unit total) 544 0
  unfolding Stages.rms_prepare
  rms_prepare-Costs c unit total =
      bind-Costs 41 503 0 0 (bounded_positive_mul-Costs total (get_or c 5 0) (get_or c 0 0))
        λ variance. bind-Costs 6 497 0 0 (log2-Costs variance) λ log_variance.
          bind-Costs 77 420 0 0
            (bounded_normalize-Costs log_variance (get_or c 8 0) (get_or c 9 0) (get_or c 1 0)
              (get_or c 0 0))
            λ normalized_log.
              bind-Costs 77 343 0 0
                (bounded_normalize-Costs (get_or c 6 0) (get_or c 1 0) unit (get_or c 1 0)
                  (get_or c 0 0))
                λ normalized_half.
                  bind-Costs 274 69 0 0
                    (bounded_product-Costs normalized_log normalized_half (get_or c 7 0)
                      (get_or c 8 0) (get_or c 1 0) (get_or c 0 0))
                    λ half_log. bind-Costs 2 67 0 0 (exp2-Costs half_log) λ root.
                      bind-Costs 6 61 0 0 (log2-Costs root) λ log_root.
                        bind-Costs 18 43 0 0 (bounded_neg-Costs log_root (get_or c 0 0))
                          λ minus_log_root.
                            bind-Costs 2 41 0 0 (exp2-Costs minus_log_root) λ inverse_root.
                              bind-Costs 41 0 0 0
                                (bounded_positive_mul-Costs (get_or c 10 0) root (get_or c 0 0))
                                λ shift. done-Costs (inverse_root, shift)

  pub rms_weighted-Costs :
      (c : List NodeId) (x weight inverse_root shift : NodeId)
      → Costs {float = float} (Stages.rms_weighted c x weight inverse_root shift) 505 0
  unfolding Stages.rms_weighted
  rms_weighted-Costs c x weight inverse_root shift =
      bind-Costs 27 478 0 0 (bounded_add-Costs x shift (get_or c 1 0)) λ numerator.
        bind-Costs 41 437 0 0 (bounded_positive_mul-Costs numerator inverse_root (get_or c 0 0))
          λ ratio. bind-Costs 9 428 0 0 (sub-Costs ratio (get_or c 10 0)) λ normalized_x.
            bind-Costs 77 351 0 0
              (bounded_normalize-Costs normalized_x (get_or c 11 0) (get_or c 12 0) (get_or c 1 0)
                (get_or c 0 0))
              λ unit_x.
                bind-Costs 77 274 0 0
                  (bounded_normalize-Costs weight (get_or c 13 0) (get_or c 14 0) (get_or c 1 0)
                    (get_or c 0 0))
                  λ unit_weight.
                    bounded_product-Costs unit_x unit_weight (get_or c 15 0) (get_or c 16 0)
                      (get_or c 1 0) (get_or c 0 0)

  pub rms_output-Costs :
      (c : List NodeId) (x weight inverse_root shift : NodeId)
      → Costs {float = float} (Stages.rms_output c x weight inverse_root shift) 582 0
  unfolding Stages.rms_output
  rms_output-Costs c x weight inverse_root shift =
      bind-Costs 77 505 0 0
        (bounded_normalize-Costs x (get_or c 2 0) (get_or c 3 0) (get_or c 1 0) (get_or c 0 0))
        λ normalized. rms_weighted-Costs c normalized weight inverse_root shift

  pub softmax_exp-Costs :
      (c : List NodeId) (score maximum : NodeId)
      → Costs {float = float} (Stages.softmax_exp c score maximum) 475 0
  unfolding Stages.softmax_exp
  softmax_exp-Costs c score maximum =
      bind-Costs 18 457 0 0 (bounded_neg-Costs maximum (get_or c 2 0)) λ negative_maximum.
        bind-Costs 27 430 0 0 (bounded_add-Costs score negative_maximum (get_or c 2 0)) λ shifted.
          bind-Costs 428 2 0 0
            (product_with_literals-Costs shifted (get_or c 3 0) (get_or c 0 0) (get_or c 1 0)
              (get_or c 4 0) (get_or c 5 0) (get_or c 6 0) (get_or c 7 0) (get_or c 8 0)
              (get_or c 9 0))
            λ exponent. exp2-Costs exponent

  pub softmax_inverse-Costs :
      (c : List NodeId) (total : NodeId)
      → Costs {float = float} (Stages.softmax_inverse c total) 26 0
  unfolding Stages.softmax_inverse
  softmax_inverse-Costs c total = bind-Costs 6 20 0 0 (log2-Costs total) λ log_total.
      bind-Costs 18 2 0 0 (bounded_neg-Costs log_total (get_or c 0 0))
        λ negative_log. exp2-Costs negative_log

  pub bounded_dot_step-Costs :
      (c : List NodeId) (accumulator left right : NodeId)
      → Costs {float = float} (Stages.bounded_dot_step c accumulator left right) 455 0
  unfolding Stages.bounded_dot_step
  bounded_dot_step-Costs c accumulator left right =
      bind-Costs 428 27 0 0
        (product_with_literals-Costs left right (get_or c 0 0) (get_or c 1 0) (get_or c 2 0)
          (get_or c 3 0) (get_or c 4 0) (get_or c 5 0) (get_or c 6 0) (get_or c 7 0))
        λ product. bounded_add-Costs accumulator product (get_or c 8 0)

  pub bounded_rotation-Costs :
      (c : List NodeId) (x y cosine sine : NodeId)
      → Costs {float = float} (Stages.bounded_rotation c x y cosine sine) 1784 0
  unfolding Stages.bounded_rotation
  bounded_rotation-Costs c x y cosine sine =
      bind-Costs 428 1356 0 0
        (product_with_literals-Costs x cosine (get_or c 0 0) (get_or c 1 0) (get_or c 2 0)
          (get_or c 3 0) (get_or c 4 0) (get_or c 5 0) (get_or c 6 0) (get_or c 7 0))
        λ xc.
          bind-Costs 428 928 0 0
            (product_with_literals-Costs y sine (get_or c 0 0) (get_or c 1 0) (get_or c 2 0)
              (get_or c 3 0) (get_or c 4 0) (get_or c 5 0) (get_or c 6 0) (get_or c 7 0))
            λ ys. bind-Costs 18 910 0 0 (bounded_neg-Costs ys (get_or c 8 0)) λ minus_ys.
              bind-Costs 27 883 0 0 (bounded_add-Costs xc minus_ys (get_or c 8 0)) λ first.
                bind-Costs 428 455 0 0
                  (product_with_literals-Costs x sine (get_or c 0 0) (get_or c 1 0) (get_or c 2 0)
                    (get_or c 3 0) (get_or c 4 0) (get_or c 5 0) (get_or c 6 0) (get_or c 7 0))
                  λ xs.
                    bind-Costs 428 27 0 0
                      (product_with_literals-Costs y cosine (get_or c 0 0) (get_or c 1 0)
                        (get_or c 2 0) (get_or c 3 0) (get_or c 4 0) (get_or c 5 0) (get_or c 6 0)
                        (get_or c 7 0))
                      λ yc.
                        bind-Costs 27 0 0 0 (bounded_add-Costs xs yc (get_or c 8 0))
                          λ second. done-Costs (first, second)

  pub sigmoid_numerator-Costs :
      (c : List NodeId) (gate : NodeId)
      → Costs {float = float} (Stages.sigmoid_numerator c gate) 457 0
  unfolding Stages.sigmoid_numerator
  sigmoid_numerator-Costs c gate =
      bind-Costs 27 430 0 0 (bounded_add-Costs gate (get_or c 2 0) (get_or c 3 0)) λ shifted.
        bind-Costs 428 2 0 0
          (product_with_literals-Costs shifted (get_or c 5 0) (get_or c 0 0) (get_or c 1 0)
            (get_or c 6 0) (get_or c 7 0) (get_or c 8 0) (get_or c 9 0) (get_or c 10 0)
            (get_or c 11 0))
          λ exponent. exp2-Costs exponent

  pub wide_denominator-Costs :
      (c : List NodeId) (numerator : NodeId)
      → Costs {float = float} (Stages.wide_denominator c numerator) 7 0
  unfolding Stages.wide_denominator
  wide_denominator-Costs c numerator =
      bind-Costs 6 1 0 0 (log2-Costs numerator)
        λ log_numerator. apply-Costs log_numerator (get_or c 24 0)

  pub swiglu_output-Costs :
      (c : List NodeId) (gate up numerator denominator : NodeId)
      → Costs {float = float} (Stages.swiglu_output c gate up numerator denominator) 923 0
  unfolding Stages.swiglu_output
  swiglu_output-Costs c gate up numerator denominator =
      bind-Costs 6 917 0 0 (log2-Costs denominator) λ log_denominator.
        bind-Costs 18 899 0 0 (bounded_neg-Costs log_denominator (get_or c 0 0)) λ minus_log.
          bind-Costs 2 897 0 0 (exp2-Costs minus_log) λ inverse.
            bind-Costs 41 856 0 0 (bounded_positive_mul-Costs numerator inverse (get_or c 0 0))
              λ sigmoid.
                bind-Costs 428 428 0 0
                  (product_with_literals-Costs gate sigmoid (get_or c 0 0) (get_or c 1 0)
                    (get_or c 12 0) (get_or c 13 0) (get_or c 14 0) (get_or c 15 0) (get_or c 16 0)
                    (get_or c 17 0))
                  λ silu.
                    product_with_literals-Costs silu up (get_or c 0 0) (get_or c 1 0)
                      (get_or c 18 0) (get_or c 19 0) (get_or c 20 0) (get_or c 21 0)
                      (get_or c 22 0) (get_or c 23 0)
