-- ===== src/Domain/Transformer/Bounded/OpPrograms.antt =====
-- crates/domain/src/transformer/bounded_ops.rs: the nodes that the operations with declared bounds append,
-- after their literals.
use bml.Prelude.{ℕ, Bool, true, false, List, [], ◌∷◌, take}
use bml.Float.{Float}
use bml.Domain.Ast.{NodeId}
use bml.Domain.Transformer.{Build, done, ◌>>=◌}
use bml.Domain.Transformer.Loops.{for_each, fold_nodes}
use bml.Domain.Transformer.Bounded.Arithmetic.{
  bounded_neg, bounded_add, bounded_positive_add, bounded_positive_mul, product_with_literals,
}
use bml.Domain.Transformer.Bounded.Stages.{
  softmax_exp, softmax_inverse, bounded_dot_step, bounded_rotation, sigmoid_numerator,
  wide_denominator, swiglu_output,
}
use bml.Domain.Transformer.Bounded.Programs.{operand, constants}
use bml.Domain.Transformer.Bounded.OpConfig.{
  Kind, kind_product, kind_add, kind_dot_step, kind_rope, kind_swiglu, kind_softmax,
}
use bml.Domain.Transformer.Arithmetic.{exp2}

module _ {float : Float} where
  -- The stages of the softmax, on the nodes of the literals and the operands.
  unfoldable pub softmax_exp_nodes : List NodeId → List NodeId → Build float NodeId
  softmax_exp_nodes operands c = softmax_exp c (operand operands 0) (operand operands 1)

  unfoldable pub softmax_reduce_nodes : List NodeId → List NodeId → Build float NodeId
  softmax_reduce_nodes operands c = do
    value ← softmax_exp c (operand operands 1) (operand operands 2)
    bounded_positive_add (operand operands 0) value (operand c 1)

  unfoldable pub softmax_sum_nodes : List NodeId → List NodeId → Build float NodeId
  softmax_sum_nodes operands c =
      bounded_positive_add (operand operands 0) (operand operands 1) (operand c 1)

  unfoldable pub softmax_inverse_nodes : List NodeId → List NodeId → Build float NodeId
  softmax_inverse_nodes operands c = softmax_inverse c (operand operands 0)

  unfoldable pub softmax_output_nodes : List NodeId → List NodeId → Build float NodeId
  softmax_output_nodes operands c = do
    value ← softmax_exp c (operand operands 0) (operand operands 1)
    bounded_positive_mul value (operand operands 2) (operand c 0)

  unfoldable pub softmax_normalize_nodes : List NodeId → List NodeId → Build float NodeId
  softmax_normalize_nodes operands c =
      bounded_positive_mul (operand operands 0) (operand operands 1) (operand c 0)

  -- The exponent of the whole softmax shares the negated maximum.
  unfoldable pub shifted_exp : List NodeId → NodeId → NodeId → Build float NodeId
  shifted_exp c negative_maximum score = do
    shifted ← bounded_add score negative_maximum (operand c 2)
    exponent ←
        product_with_literals shifted (operand c 3) (operand c 0) (operand c 1) (operand c 4)
          (operand c 5) (operand c 6) (operand c 7) (operand c 8) (operand c 9)
    exp2 exponent

  -- `exponentials[0]` and the others. The source panics on an empty list, which stands here for node 0; a
  -- configuration has a positive width, and the theorems on the softmax assume one.
  unfoldable pub softmax_total : List NodeId → List NodeId → Build float NodeId
  softmax_total c [] = done 0
  softmax_total c (first ∷ rest) =
      fold_nodes (λ total value. bounded_positive_add total value (operand c 1)) first rest

  unfoldable pub bounded_softmax_nodes : ℕ → List NodeId → List NodeId → Build float (List NodeId)
  bounded_softmax_nodes width operands c = do
    negative_maximum ← bounded_neg (operand operands width) (operand c 2)
    exponentials ← for_each (λ score. shifted_exp c negative_maximum score) (take width operands)
    total ← softmax_total c exponentials
    inverse ← softmax_inverse c total
    for_each (λ value. bounded_positive_mul value inverse (operand c 0)) exponentials

  -- The denominator of the sigmoid, by the range of the gate.
  unfoldable pub denominator_nodes : Bool → NodeId → List NodeId → Build float NodeId
  denominator_nodes true numerator c = wide_denominator c numerator
  denominator_nodes false numerator c = bounded_positive_add (operand c 4) numerator (operand c 1)

  unfoldable pub bounded_swiglu_nodes : Bool → List NodeId → List NodeId → Build float NodeId
  bounded_swiglu_nodes wide operands c = do
    numerator ← sigmoid_numerator c (operand operands 0)
    denominator ← denominator_nodes wide numerator c
    swiglu_output c (operand operands 0) (operand operands 1) numerator denominator

  -- The literals of a product begin at the third.
  unfoldable pub bounded_product_nodes : List NodeId → List NodeId → Build float NodeId
  bounded_product_nodes operands c =
      product_with_literals (operand operands 0) (operand operands 1) (operand c 0) (operand c 1)
        (operand c 2) (operand c 3) (operand c 4) (operand c 5) (operand c 6) (operand c 7)

  abbrev single : Build float NodeId → Build float (List NodeId)
  single node = do id ← node; done (id ∷ [])

  -- The nodes of each kind.
  unfoldable pub operation_nodes :
      Kind → ℕ → Bool → List NodeId → List NodeId → List NodeId → Build float (List NodeId)
  operation_nodes kind_product width wide operands external c =
      single (bounded_product_nodes operands c)
  operation_nodes kind_add width wide operands external c =
      single (bounded_add (operand operands 0) (operand operands 1) (operand c 2))
  operation_nodes kind_dot_step width wide operands external c =
      single (bounded_dot_step c (operand operands 0) (operand operands 1) (operand operands 2))
  operation_nodes kind_rope width wide operands external c = do
    pair ←
        bounded_rotation c (operand operands 0) (operand operands 1) (operand external 0)
          (operand external 1)
    done (pair.0 ∷ pair.1 ∷ [])
  operation_nodes kind_swiglu width wide operands external c =
      single (bounded_swiglu_nodes wide operands c)
  operation_nodes kind_softmax width wide operands external c =
      bounded_softmax_nodes width operands c

  -- A program after the literals.
  unfoldable pub with_literals :
      {A : Type 0} → List (float.F64) → (List NodeId → Build float A) → Build float A
  with_literals literals program = do c ← constants literals; program c
