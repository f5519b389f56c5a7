-- ===== src/Domain/Transformer/Formula/Within.antt =====
-- The numbers that the operations of crates/domain/src/transformer/bounded_ops.rs stand for, from the
-- declared bounds of their operands: every constant is written by its meaning.
use bml.Prelude.{ℕ, Bool, true, false, List, [], ◌∷◌, map, get_or, take, if◌then◌else◌}
use bml.Float.{Float}
use bml.Domain.Transformer.Loops.{fold}
use bml.Domain.Transformer.Bounded.OpConfig.{
  Kind, kind_product, kind_add, kind_dot_step, kind_rope, kind_swiglu, kind_softmax,
}
use bml.Domain.Transformer.Formula.{exp2, log2, apply}
use bml.Domain.Transformer.Formula.Bounded.{
  bounded_neg, bounded_add, bounded_positive_add, bounded_positive_mul, bounded_normalize,
  bounded_product,
}

module _ (float : Float) where
  open float use {F64}

  abbrev pub number : ℕ → F64
  number n = float.of_nat n

  abbrev pub twice : F64 → F64
  twice x = float.mul (number 2) x

  abbrev pub inverse_of : F64 → F64
  inverse_of x = float.div float.one x

  -- The product of two positive numbers.
  unfoldable pub times : F64 → F64 → F64
  times x y = bounded_positive_mul float x y (number 64)

  -- A number of the interval of a bound, in units of that bound.
  unfoldable pub unit : F64 → F64 → F64
  unit bound x = bounded_normalize float x (twice bound) (inverse_of bound) (number 2) (number 64)

  -- The product of numbers within two bounds.
  unfoldable pub product_within : F64 → F64 → F64 → F64 → F64
  product_within left right x y =
      bounded_product float (unit left x) (unit right y) (float.mul left right)
        (float.mul (twice left) right) (number 2) (number 64)

  unfoldable pub dot_step_within : F64 → F64 → F64 → F64 → F64 → F64
  dot_step_within left right accumulator x y =
      bounded_add float accumulator (product_within left right x y) (number 256)

  unfoldable pub rotation_within : F64 → F64 → F64 → F64 → F64 → List F64
  rotation_within bound x y cosine sine =
      let scaled = product_within bound float.one in
      bounded_add float (scaled x cosine) (bounded_neg float (scaled y sine) (twice bound))
        (twice bound)
      ∷ bounded_add float (scaled x sine) (scaled y cosine) (twice bound)
      ∷ []

  -- The exponential of a difference within twice the bound.
  unfoldable pub exponential_within : F64 → F64 → F64
  exponential_within bound difference =
      exp2 float (product_within (twice bound) (number 2) difference float.log2_e)

  -- The exponential of a score below the maximum.
  unfoldable pub softmax_exp_within : F64 → F64 → F64 → F64
  softmax_exp_within bound score maximum =
      exponential_within bound
        (bounded_add float score (bounded_neg float maximum (twice bound)) (twice bound))

  unfoldable pub reciprocal : F64 → F64
  reciprocal total = exp2 float (bounded_neg float (log2 float total) (number 64))

  -- The sum of a number and an exponential.
  unfoldable pub sum_with : F64 → F64 → F64
  sum_with total x = bounded_positive_add float total x (number 2)

  unfoldable pub total_of : List F64 → F64
  total_of [] = float.zero
  total_of (first ∷ rest) = fold sum_with first rest

  unfoldable pub softmax_within : F64 → List F64 → F64 → List F64
  softmax_within bound scores maximum =
      let exponentials = map (λ score. softmax_exp_within bound score maximum) scores in
      map (λ x. times x (reciprocal (total_of exponentials))) exponentials

  -- The shift of the gate in its sigmoid: 8 for a wide range, the bound of the gate else.
  abbrev pub shift_of : Bool → F64 → F64
  shift_of wide bound = if wide then number 8 else bound

  unfoldable pub sigmoid_numerator_within : Bool → F64 → F64 → F64
  sigmoid_numerator_within wide bound gate =
      exponential_within bound
        (bounded_add float gate (float.neg (shift_of wide bound)) (twice bound))

  -- The numerator and the exponential of the negated shift.
  unfoldable pub denominator_within : Bool → F64 → F64 → F64
  denominator_within true bound numerator =
      apply float (log2 float numerator)
        (float.powf (number 2) (float.neg (float.exp (float.neg (shift_of true bound)))))
  denominator_within false bound numerator =
      sum_with (float.exp (float.neg (shift_of false bound))) numerator

  unfoldable pub swiglu_within : Bool → F64 → F64 → F64 → F64 → F64
  swiglu_within wide left right gate up =
      let numerator = sigmoid_numerator_within wide left gate in
      let sigmoid = times numerator (reciprocal (denominator_within wide left numerator)) in
      product_within left right (product_within left float.one gate sigmoid) up

  -- The outputs of a kind, from its width, its two bounds, the operands and the external values. The
  -- range of a gate is wide above 16.
  unfoldable pub operation_within : Kind → ℕ → F64 → F64 → List F64 → List F64 → List F64
  operation_within kind_product width left right xs es =
      product_within left right (get_or xs 0 float.zero) (get_or xs 1 float.zero) ∷ []
  operation_within kind_add width left right xs es =
      bounded_add float (get_or xs 0 float.zero) (get_or xs 1 float.zero) (twice left) ∷ []
  operation_within kind_dot_step width left right xs es =
      dot_step_within left right (get_or xs 0 float.zero) (get_or xs 1 float.zero)
        (get_or xs 2 float.zero)
      ∷ []
  operation_within kind_rope width left right xs es =
      rotation_within left (get_or xs 0 float.zero) (get_or xs 1 float.zero)
        (get_or es 0 float.zero) (get_or es 1 float.zero)
  operation_within kind_swiglu width left right xs es =
      swiglu_within (float.lt (number 16) left) left right (get_or xs 0 float.zero)
        (get_or xs 1 float.zero)
      ∷ []
  operation_within kind_softmax width left right xs es =
      softmax_within left (take width xs) (get_or xs width float.zero)
