-- ===== src/Domain/Transformer/Values/OpStages.antt =====
-- The steps of the operations with declared bounds make nodes of the values of their formulas.
use bml.Prelude.{◌^◌, ◌≤◌, List, arith, length}
use bml.Float.{Float}
use bml.Domain.Ast.{NodeId}
use bml.Domain.Soa.{NodeSoa, len}
use bml.Domain.Transformer.Values.{Holds, Makes, done-Makes, bind-Makes}
use bml.Domain.Transformer.Values.Primitives.{apply-Makes}
use bml.Domain.Transformer.Values.Arithmetic.{log2-Makes, exp2-Makes}
use bml.Domain.Transformer.Values.Loops.{Aligned, Aligned-get}
use bml.Domain.Transformer.Values.Bounded.{
  bounded_positive_mul-Makes, bounded_neg-Makes, bounded_add-Makes, product_with_literals-Makes,
}
use bml.Domain.Transformer.Bounded.Stages as Stages
use bml.Domain.Transformer.Formula.Stages as Formula

module _ (float : Float) (inputs : List (float.F64)) (end : NodeSoa float)
    (small : len float end ≤ 2 ^ 32) where
  open float use {F64}

  pub softmax_exp-Makes :
      {c : List NodeId} {c' : List F64} {score maximum : NodeId} {score' maximum' : F64}
      → Aligned (Holds float inputs end) c c'
      → 10 ≤ length c
      → Holds float inputs end score score'
      → Holds float inputs end maximum maximum'
      → Makes float inputs end
          (Stages.softmax_exp c score maximum)
          (λ id. Holds float inputs end id (Formula.softmax_exp float c' score' maximum'))
  unfolding Stages.softmax_exp Formula.softmax_exp
  softmax_exp-Makes hc size h0 h1 =
      bind-Makes float inputs end
        (bounded_neg-Makes float inputs end small h1
          (Aligned-get 2 0 float.zero hc (omega (arith, size))))
        λ _ e0.
          bind-Makes float inputs end
            (bounded_add-Makes float inputs end small h0 e0
              (Aligned-get 2 0 float.zero hc (omega (arith, size))))
            λ _ e1.
              bind-Makes float inputs end
                (product_with_literals-Makes float inputs end small e1
                  (Aligned-get 3 0 float.zero hc (omega (arith, size)))
                  (Aligned-get 0 0 float.zero hc (omega (arith, size)))
                  (Aligned-get 1 0 float.zero hc (omega (arith, size)))
                  (Aligned-get 4 0 float.zero hc (omega (arith, size)))
                  (Aligned-get 5 0 float.zero hc (omega (arith, size)))
                  (Aligned-get 6 0 float.zero hc (omega (arith, size)))
                  (Aligned-get 7 0 float.zero hc (omega (arith, size)))
                  (Aligned-get 8 0 float.zero hc (omega (arith, size)))
                  (Aligned-get 9 0 float.zero hc (omega (arith, size))))
                λ _ e2. exp2-Makes float inputs end small e2

  pub softmax_inverse-Makes :
      {c : List NodeId} {c' : List F64} {total : NodeId} {total' : F64}
      → Aligned (Holds float inputs end) c c'
      → 10 ≤ length c
      → Holds float inputs end total total'
      → Makes float inputs end
          (Stages.softmax_inverse c total)
          (λ id. Holds float inputs end id (Formula.softmax_inverse float c' total'))
  unfolding Stages.softmax_inverse Formula.softmax_inverse
  softmax_inverse-Makes hc size h0 =
      bind-Makes float inputs end (log2-Makes float inputs end small h0) λ _ e0.
        bind-Makes float inputs end
          (bounded_neg-Makes float inputs end small e0
            (Aligned-get 0 0 float.zero hc (omega (arith, size))))
          λ _ e1. exp2-Makes float inputs end small e1

  pub bounded_dot_step-Makes :
      {c : List NodeId} {c' : List F64} {accumulator left right : NodeId}
      {accumulator' left' right' : F64}
      → Aligned (Holds float inputs end) c c'
      → 9 ≤ length c
      → Holds float inputs end accumulator accumulator'
      → Holds float inputs end left left'
      → Holds float inputs end right right'
      → Makes float inputs end (Stages.bounded_dot_step c accumulator left right) (λ id.
        Holds float inputs end id (Formula.bounded_dot_step float c' accumulator' left' right'))
  unfolding Stages.bounded_dot_step Formula.bounded_dot_step
  bounded_dot_step-Makes hc size h0 h1 h2 =
      bind-Makes float inputs end
        (product_with_literals-Makes float inputs end small h1 h2
          (Aligned-get 0 0 float.zero hc (omega (arith, size)))
          (Aligned-get 1 0 float.zero hc (omega (arith, size)))
          (Aligned-get 2 0 float.zero hc (omega (arith, size)))
          (Aligned-get 3 0 float.zero hc (omega (arith, size)))
          (Aligned-get 4 0 float.zero hc (omega (arith, size)))
          (Aligned-get 5 0 float.zero hc (omega (arith, size)))
          (Aligned-get 6 0 float.zero hc (omega (arith, size)))
          (Aligned-get 7 0 float.zero hc (omega (arith, size))))
        λ _ e0.
          bounded_add-Makes float inputs end small h0 e0
            (Aligned-get 8 0 float.zero hc (omega (arith, size)))

  pub bounded_rotation-Makes :
      {c : List NodeId} {c' : List F64} {x y cosine sine : NodeId} {x' y' cosine' sine' : F64}
      → Aligned (Holds float inputs end) c c'
      → 9 ≤ length c
      → Holds float inputs end x x'
      → Holds float inputs end y y'
      → Holds float inputs end cosine cosine'
      → Holds float inputs end sine sine'
      → Makes float inputs end (Stages.bounded_rotation c x y cosine sine) (λ pair.
        Holds float inputs end pair.0 (Formula.bounded_rotation float c' x' y' cosine' sine').0
        × Holds float inputs end pair.1 (Formula.bounded_rotation float c' x' y' cosine' sine').1)
  unfolding Stages.bounded_rotation Formula.bounded_rotation
  bounded_rotation-Makes hc size h0 h1 h2 h3 =
      bind-Makes float inputs end
        (product_with_literals-Makes float inputs end small h0 h2
          (Aligned-get 0 0 float.zero hc (omega (arith, size)))
          (Aligned-get 1 0 float.zero hc (omega (arith, size)))
          (Aligned-get 2 0 float.zero hc (omega (arith, size)))
          (Aligned-get 3 0 float.zero hc (omega (arith, size)))
          (Aligned-get 4 0 float.zero hc (omega (arith, size)))
          (Aligned-get 5 0 float.zero hc (omega (arith, size)))
          (Aligned-get 6 0 float.zero hc (omega (arith, size)))
          (Aligned-get 7 0 float.zero hc (omega (arith, size))))
        λ _ e0.
          bind-Makes float inputs end
            (product_with_literals-Makes float inputs end small h1 h3
              (Aligned-get 0 0 float.zero hc (omega (arith, size)))
              (Aligned-get 1 0 float.zero hc (omega (arith, size)))
              (Aligned-get 2 0 float.zero hc (omega (arith, size)))
              (Aligned-get 3 0 float.zero hc (omega (arith, size)))
              (Aligned-get 4 0 float.zero hc (omega (arith, size)))
              (Aligned-get 5 0 float.zero hc (omega (arith, size)))
              (Aligned-get 6 0 float.zero hc (omega (arith, size)))
              (Aligned-get 7 0 float.zero hc (omega (arith, size))))
            λ _ e1.
              bind-Makes float inputs end
                (bounded_neg-Makes float inputs end small e1
                  (Aligned-get 8 0 float.zero hc (omega (arith, size))))
                λ _ e2.
                  bind-Makes float inputs end
                    (bounded_add-Makes float inputs end small e0 e2
                      (Aligned-get 8 0 float.zero hc (omega (arith, size))))
                    λ _ e3.
                      bind-Makes float inputs end
                        (product_with_literals-Makes float inputs end small h0 h3
                          (Aligned-get 0 0 float.zero hc (omega (arith, size)))
                          (Aligned-get 1 0 float.zero hc (omega (arith, size)))
                          (Aligned-get 2 0 float.zero hc (omega (arith, size)))
                          (Aligned-get 3 0 float.zero hc (omega (arith, size)))
                          (Aligned-get 4 0 float.zero hc (omega (arith, size)))
                          (Aligned-get 5 0 float.zero hc (omega (arith, size)))
                          (Aligned-get 6 0 float.zero hc (omega (arith, size)))
                          (Aligned-get 7 0 float.zero hc (omega (arith, size))))
                        λ _ e4.
                          bind-Makes float inputs end
                            (product_with_literals-Makes float inputs end small h1 h2
                              (Aligned-get 0 0 float.zero hc (omega (arith, size)))
                              (Aligned-get 1 0 float.zero hc (omega (arith, size)))
                              (Aligned-get 2 0 float.zero hc (omega (arith, size)))
                              (Aligned-get 3 0 float.zero hc (omega (arith, size)))
                              (Aligned-get 4 0 float.zero hc (omega (arith, size)))
                              (Aligned-get 5 0 float.zero hc (omega (arith, size)))
                              (Aligned-get 6 0 float.zero hc (omega (arith, size)))
                              (Aligned-get 7 0 float.zero hc (omega (arith, size))))
                            λ _ e5.
                              bind-Makes float inputs end
                                (bounded_add-Makes float inputs end small e4 e5
                                  (Aligned-get 8 0 float.zero hc (omega (arith, size))))
                                λ _ e6. done-Makes float inputs end (e3, e6)

  pub sigmoid_numerator-Makes :
      {c : List NodeId} {c' : List F64} {gate : NodeId} {gate' : F64}
      → Aligned (Holds float inputs end) c c'
      → 24 ≤ length c
      → Holds float inputs end gate gate'
      → Makes float inputs end
          (Stages.sigmoid_numerator c gate)
          (λ id. Holds float inputs end id (Formula.sigmoid_numerator float c' gate'))
  unfolding Stages.sigmoid_numerator Formula.sigmoid_numerator
  sigmoid_numerator-Makes hc size h0 =
      bind-Makes float inputs end
        (bounded_add-Makes float inputs end small h0
          (Aligned-get 2 0 float.zero hc (omega (arith, size)))
          (Aligned-get 3 0 float.zero hc (omega (arith, size))))
        λ _ e0.
          bind-Makes float inputs end
            (product_with_literals-Makes float inputs end small e0
              (Aligned-get 5 0 float.zero hc (omega (arith, size)))
              (Aligned-get 0 0 float.zero hc (omega (arith, size)))
              (Aligned-get 1 0 float.zero hc (omega (arith, size)))
              (Aligned-get 6 0 float.zero hc (omega (arith, size)))
              (Aligned-get 7 0 float.zero hc (omega (arith, size)))
              (Aligned-get 8 0 float.zero hc (omega (arith, size)))
              (Aligned-get 9 0 float.zero hc (omega (arith, size)))
              (Aligned-get 10 0 float.zero hc (omega (arith, size)))
              (Aligned-get 11 0 float.zero hc (omega (arith, size))))
            λ _ e1. exp2-Makes float inputs end small e1

  pub wide_denominator-Makes :
      {c : List NodeId} {c' : List F64} {numerator : NodeId} {numerator' : F64}
      → Aligned (Holds float inputs end) c c'
      → 25 ≤ length c
      → Holds float inputs end numerator numerator'
      → Makes float inputs end
          (Stages.wide_denominator c numerator)
          (λ id. Holds float inputs end id (Formula.wide_denominator float c' numerator'))
  unfolding Stages.wide_denominator Formula.wide_denominator
  wide_denominator-Makes hc size h0 =
      bind-Makes float inputs end (log2-Makes float inputs end small h0) λ _ e0.
        apply-Makes float inputs end small e0 (Aligned-get 24 0 float.zero hc (omega (arith, size)))

  pub swiglu_output-Makes :
      {c : List NodeId} {c' : List F64} {gate up numerator denominator : NodeId}
      {gate' up' numerator' denominator' : F64}
      → Aligned (Holds float inputs end) c c'
      → 24 ≤ length c
      → Holds float inputs end gate gate'
      → Holds float inputs end up up'
      → Holds float inputs end numerator numerator'
      → Holds float inputs end denominator denominator'
      → Makes float inputs end (Stages.swiglu_output c gate up numerator denominator) (λ id.
        Holds float inputs end id
          (Formula.swiglu_output float c' gate' up' numerator' denominator'))
  unfolding Stages.swiglu_output Formula.swiglu_output
  swiglu_output-Makes hc size h0 h1 h2 h3 =
      bind-Makes float inputs end (log2-Makes float inputs end small h3) λ _ e0.
        bind-Makes float inputs end
          (bounded_neg-Makes float inputs end small e0
            (Aligned-get 0 0 float.zero hc (omega (arith, size))))
          λ _ e1. bind-Makes float inputs end (exp2-Makes float inputs end small e1) λ _ e2.
            bind-Makes float inputs end
              (bounded_positive_mul-Makes float inputs end small h2 e2
                (Aligned-get 0 0 float.zero hc (omega (arith, size))))
              λ _ e3.
                bind-Makes float inputs end
                  (product_with_literals-Makes float inputs end small h0 e3
                    (Aligned-get 0 0 float.zero hc (omega (arith, size)))
                    (Aligned-get 1 0 float.zero hc (omega (arith, size)))
                    (Aligned-get 12 0 float.zero hc (omega (arith, size)))
                    (Aligned-get 13 0 float.zero hc (omega (arith, size)))
                    (Aligned-get 14 0 float.zero hc (omega (arith, size)))
                    (Aligned-get 15 0 float.zero hc (omega (arith, size)))
                    (Aligned-get 16 0 float.zero hc (omega (arith, size)))
                    (Aligned-get 17 0 float.zero hc (omega (arith, size))))
                  λ _ e4.
                    product_with_literals-Makes float inputs end small e4 h1
                      (Aligned-get 0 0 float.zero hc (omega (arith, size)))
                      (Aligned-get 1 0 float.zero hc (omega (arith, size)))
                      (Aligned-get 18 0 float.zero hc (omega (arith, size)))
                      (Aligned-get 19 0 float.zero hc (omega (arith, size)))
                      (Aligned-get 20 0 float.zero hc (omega (arith, size)))
                      (Aligned-get 21 0 float.zero hc (omega (arith, size)))
                      (Aligned-get 22 0 float.zero hc (omega (arith, size)))
                      (Aligned-get 23 0 float.zero hc (omega (arith, size)))
