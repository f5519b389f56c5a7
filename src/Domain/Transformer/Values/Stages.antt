-- ===== src/Domain/Transformer/Values/Stages.antt =====
-- The stages of the bounded normalization make nodes of the values of their formulas.
use bml.Prelude.{◌^◌, ◌≤◌, List, arith, length}
use bml.Float.{Float}
use bml.Domain.Ast.{NodeId}
use bml.Domain.Soa.{NodeSoa, len}
use bml.Domain.Transformer.Values.{Holds, Makes, done-Makes, bind-Makes}
use bml.Domain.Transformer.Values.Arithmetic.{mul_signed-Makes, log2-Makes, exp2-Makes, sub-Makes}
use bml.Domain.Transformer.Values.Loops.{Aligned, Aligned-get}
use bml.Domain.Transformer.Values.Bounded.{
  bounded_normalize-Makes, bounded_positive_add-Makes, bounded_positive_mul-Makes,
  bounded_product-Makes, bounded_neg-Makes, bounded_add-Makes,
}
use bml.Domain.Transformer.Bounded.Stages as Stages
use bml.Domain.Transformer.Formula.Stages as Formula

module _ (float : Float) (inputs : List (float.F64)) (end : NodeSoa float)
    (small : len float end ≤ 2 ^ 32) where
  open float use {F64}

  pub rms_reduce-Makes :
      {c : List NodeId} {c' : List F64} {total x : NodeId} {total' x' : F64}
      → Aligned (Holds float inputs end) c c'
      → 17 ≤ length c
      → Holds float inputs end total total'
      → Holds float inputs end x x'
      → Makes float inputs end
          (Stages.rms_reduce c total x)
          (λ id. Holds float inputs end id (Formula.rms_reduce float c' total' x'))
  unfolding Stages.rms_reduce Formula.rms_reduce
  rms_reduce-Makes hc size h0 h1 =
      bind-Makes float inputs end
        (bounded_normalize-Makes float inputs end small h1
          (Aligned-get 2 0 float.zero hc (omega (arith, size)))
          (Aligned-get 3 0 float.zero hc (omega (arith, size)))
          (Aligned-get 1 0 float.zero hc (omega (arith, size)))
          (Aligned-get 0 0 float.zero hc (omega (arith, size))))
        λ _ e0. bind-Makes float inputs end (mul_signed-Makes float inputs end small e0 e0) λ _ e1.
          bounded_positive_add-Makes float inputs end small h0 e1
            (Aligned-get 1 0 float.zero hc (omega (arith, size)))

  pub rms_prepare-Makes :
      {c : List NodeId} {c' : List F64} {unit total : NodeId} {unit' total' : F64}
      → Aligned (Holds float inputs end) c c'
      → 17 ≤ length c
      → Holds float inputs end unit unit'
      → Holds float inputs end total total'
      → Makes float inputs end (Stages.rms_prepare c unit total) (λ pair.
        Holds float inputs end pair.0 (Formula.rms_prepare float c' unit' total').0
        × Holds float inputs end pair.1 (Formula.rms_prepare float c' unit' total').1)
  unfolding Stages.rms_prepare Formula.rms_prepare
  rms_prepare-Makes hc size h0 h1 =
      bind-Makes float inputs end
        (bounded_positive_mul-Makes float inputs end small h1
          (Aligned-get 5 0 float.zero hc (omega (arith, size)))
          (Aligned-get 0 0 float.zero hc (omega (arith, size))))
        λ _ e0. bind-Makes float inputs end (log2-Makes float inputs end small e0) λ _ e1.
          bind-Makes float inputs end
            (bounded_normalize-Makes float inputs end small e1
              (Aligned-get 8 0 float.zero hc (omega (arith, size)))
              (Aligned-get 9 0 float.zero hc (omega (arith, size)))
              (Aligned-get 1 0 float.zero hc (omega (arith, size)))
              (Aligned-get 0 0 float.zero hc (omega (arith, size))))
            λ _ e2.
              bind-Makes float inputs end
                (bounded_normalize-Makes float inputs end small
                  (Aligned-get 6 0 float.zero hc (omega (arith, size)))
                  (Aligned-get 1 0 float.zero hc (omega (arith, size))) h0
                  (Aligned-get 1 0 float.zero hc (omega (arith, size)))
                  (Aligned-get 0 0 float.zero hc (omega (arith, size))))
                λ _ e3.
                  bind-Makes float inputs end
                    (bounded_product-Makes float inputs end small e2 e3
                      (Aligned-get 7 0 float.zero hc (omega (arith, size)))
                      (Aligned-get 8 0 float.zero hc (omega (arith, size)))
                      (Aligned-get 1 0 float.zero hc (omega (arith, size)))
                      (Aligned-get 0 0 float.zero hc (omega (arith, size))))
                    λ _ e4.
                      bind-Makes float inputs end (exp2-Makes float inputs end small e4) λ _ e5.
                        bind-Makes float inputs end (log2-Makes float inputs end small e5) λ _ e6.
                          bind-Makes float inputs end
                            (bounded_neg-Makes float inputs end small e6
                              (Aligned-get 0 0 float.zero hc (omega (arith, size))))
                            λ _ e7.
                              bind-Makes float inputs end (exp2-Makes float inputs end small e7)
                                λ _ e8.
                                  bind-Makes float inputs end
                                    (bounded_positive_mul-Makes float inputs end small
                                      (Aligned-get 10 0 float.zero hc (omega (arith, size))) e5
                                      (Aligned-get 0 0 float.zero hc (omega (arith, size))))
                                    λ _ e9. done-Makes float inputs end (e8, e9)

  pub rms_weighted-Makes :
      {c : List NodeId} {c' : List F64} {x weight inverse_root shift : NodeId}
      {x' weight' inverse_root' shift' : F64}
      → Aligned (Holds float inputs end) c c'
      → 17 ≤ length c
      → Holds float inputs end x x'
      → Holds float inputs end weight weight'
      → Holds float inputs end inverse_root inverse_root'
      → Holds float inputs end shift shift'
      → Makes float inputs end (Stages.rms_weighted c x weight inverse_root shift) (λ id.
        Holds float inputs end id (Formula.rms_weighted float c' x' weight' inverse_root' shift'))
  unfolding Stages.rms_weighted Formula.rms_weighted
  rms_weighted-Makes hc size h0 h1 h2 h3 =
      bind-Makes float inputs end
        (bounded_add-Makes float inputs end small h0 h3
          (Aligned-get 1 0 float.zero hc (omega (arith, size))))
        λ _ e0.
          bind-Makes float inputs end
            (bounded_positive_mul-Makes float inputs end small e0 h2
              (Aligned-get 0 0 float.zero hc (omega (arith, size))))
            λ _ e1.
              bind-Makes float inputs end
                (sub-Makes float inputs end small e1
                  (Aligned-get 10 0 float.zero hc (omega (arith, size))))
                λ _ e2.
                  bind-Makes float inputs end
                    (bounded_normalize-Makes float inputs end small e2
                      (Aligned-get 11 0 float.zero hc (omega (arith, size)))
                      (Aligned-get 12 0 float.zero hc (omega (arith, size)))
                      (Aligned-get 1 0 float.zero hc (omega (arith, size)))
                      (Aligned-get 0 0 float.zero hc (omega (arith, size))))
                    λ _ e3.
                      bind-Makes float inputs end
                        (bounded_normalize-Makes float inputs end small h1
                          (Aligned-get 13 0 float.zero hc (omega (arith, size)))
                          (Aligned-get 14 0 float.zero hc (omega (arith, size)))
                          (Aligned-get 1 0 float.zero hc (omega (arith, size)))
                          (Aligned-get 0 0 float.zero hc (omega (arith, size))))
                        λ _ e4.
                          bounded_product-Makes float inputs end small e3 e4
                            (Aligned-get 15 0 float.zero hc (omega (arith, size)))
                            (Aligned-get 16 0 float.zero hc (omega (arith, size)))
                            (Aligned-get 1 0 float.zero hc (omega (arith, size)))
                            (Aligned-get 0 0 float.zero hc (omega (arith, size)))

  pub rms_output-Makes :
      {c : List NodeId} {c' : List F64} {x weight inverse_root shift : NodeId}
      {x' weight' inverse_root' shift' : F64}
      → Aligned (Holds float inputs end) c c'
      → 17 ≤ length c
      → Holds float inputs end x x'
      → Holds float inputs end weight weight'
      → Holds float inputs end inverse_root inverse_root'
      → Holds float inputs end shift shift'
      → Makes float inputs end (Stages.rms_output c x weight inverse_root shift) (λ id.
        Holds float inputs end id (Formula.rms_output float c' x' weight' inverse_root' shift'))
  unfolding Stages.rms_output Formula.rms_output
  rms_output-Makes hc size h0 h1 h2 h3 =
      bind-Makes float inputs end
        (bounded_normalize-Makes float inputs end small h0
          (Aligned-get 2 0 float.zero hc (omega (arith, size)))
          (Aligned-get 3 0 float.zero hc (omega (arith, size)))
          (Aligned-get 1 0 float.zero hc (omega (arith, size)))
          (Aligned-get 0 0 float.zero hc (omega (arith, size))))
        λ _ e0. rms_weighted-Makes hc size e0 h1 h2 h3
