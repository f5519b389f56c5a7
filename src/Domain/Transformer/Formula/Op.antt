-- ===== src/Domain/Transformer/Formula/Op.antt =====
-- The numbers that the operations of crates/domain/src/transformer/bounded_ops.rs stand for, from the
-- literals `c`, the operands and the external values.
use bml.Prelude.{ℕ, Bool, true, false, List, [], ◌∷◌, map, get_or, take}
use bml.Float.{Float}
use bml.Domain.Transformer.Loops.{fold}
use bml.Domain.Transformer.Bounded.OpConfig.{
  Kind, kind_product, kind_add, kind_dot_step, kind_rope, kind_swiglu, kind_softmax,
}
use bml.Domain.Transformer.Formula.Bounded.{
  bounded_add, bounded_positive_add, bounded_positive_mul, product_with_literals,
}
use bml.Domain.Transformer.Formula.Stages.{
  softmax_exp, softmax_inverse, bounded_dot_step, bounded_rotation, sigmoid_numerator,
  wide_denominator, swiglu_output,
}

module _ (float : Float) where
  open float use {F64}

  abbrev pub value : List F64 → ℕ → F64
  value values i = get_or values i float.zero

  unfoldable pub denominator : Bool → F64 → List F64 → F64
  denominator true numerator c = wide_denominator float c numerator
  denominator false numerator c = bounded_positive_add float (value c 4) numerator (value c 1)

  unfoldable pub swiglu : Bool → F64 → F64 → List F64 → F64
  swiglu wide gate up c =
      let numerator = sigmoid_numerator float c gate in
      swiglu_output float c gate up numerator (denominator wide numerator c)

  -- The ordered total of the exponentials.
  unfoldable pub total : List F64 → List F64 → F64
  total c [] = float.zero
  total c (first ∷ rest) = fold (λ sum x. bounded_positive_add float sum x (value c 1)) first rest

  unfoldable pub softmax : ℕ → List F64 → List F64 → List F64
  softmax width values c =
      let exps =
        map (λ score. softmax_exp float c score (value values width)) (take width values) in
      map (λ x. bounded_positive_mul float x (softmax_inverse float c (total c exps)) (value c 0))
        exps

  unfoldable pub product : F64 → F64 → List F64 → F64
  product x y c =
      product_with_literals float x y (value c 0) (value c 1) (value c 2) (value c 3) (value c 4)
        (value c 5) (value c 6) (value c 7)

  unfoldable pub operation : Kind → ℕ → Bool → List F64 → List F64 → List F64 → List F64
  operation kind_product width wide values external c =
      product (value values 0) (value values 1) c ∷ []
  operation kind_add width wide values external c =
      bounded_add float (value values 0) (value values 1) (value c 2) ∷ []
  operation kind_dot_step width wide values external c =
      bounded_dot_step float c (value values 0) (value values 1) (value values 2) ∷ []
  operation kind_rope width wide values external c =
      let pair =
        bounded_rotation float c (value values 0) (value values 1) (value external 0)
          (value external 1) in
      pair.0 ∷ pair.1 ∷ []
  operation kind_swiglu width wide values external c =
      swiglu wide (value values 0) (value values 1) c ∷ []
  operation kind_softmax width wide values external c = softmax width values c
