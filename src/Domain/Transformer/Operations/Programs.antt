-- ===== src/Domain/Transformer/Operations/Programs.antt =====
-- crates/domain/src/transformer/operations.rs: the nodes that the operations on tensors append once
-- their operands are accepted.
use bml.Prelude.{ℕ, ◌+◌, ◌*◌, List, [], ◌∷◌, length, get_or}
use bml.Float.{Float}
use bml.Domain.Ast.{NodeId}
use bml.Domain.Transformer.{Build, done, ◌>>=◌}
use bml.Domain.Transformer.Loops.{range, flatten, for_each, for_zip, fold_nodes}
use bml.Domain.Transformer.Arithmetic.{
  one, constant, log2, exp2, neg_real, add, mul, scale_signed, mul_signed,
}

module _ {float : Float} where
  open float use {F64}

  unfoldable pub sum_nodes : List NodeId → Build float NodeId
  sum_nodes [] = constant float.zero
  sum_nodes (first ∷ rest) = fold_nodes (λ sum value. add sum value) first rest

  unfoldable pub reciprocal_real : NodeId → Build float NodeId
  reciprocal_real positive = do log ← log2 positive; negative ← neg_real log; exp2 negative

  unfoldable pub natural_exp : NodeId → NodeId → Build float NodeId
  natural_exp value log2_base = do exponent ← scale_signed value log2_base; exp2 exponent

  -- The sum of the products of a row and a column.
  unfoldable pub matmul_entry : List NodeId → List NodeId → ℕ → ℕ → ℕ → ℕ → Build float NodeId
  matmul_entry left right inner columns row column = do
    terms ←
        for_each
          (λ k.
            mul_signed (get_or left (row * inner + k) 0) (get_or right (k * columns + column) 0))
          (range 0 inner)
    sum_nodes terms

  unfoldable pub matmul_nodes : List NodeId → List NodeId → ℕ → ℕ → ℕ → Build float (List NodeId)
  matmul_nodes left right rows inner columns = do
    output ←
        for_each
          (λ row.
            for_each (λ column. matmul_entry left right inner columns row column) (range 0 columns))
          (range 0 rows)
    done (flatten output)

  unfoldable pub rms_norm_nodes : List NodeId → List NodeId → F64 → Build float (List NodeId)
  rms_norm_nodes input weights epsilon = do
    squares ← for_each (λ x. mul_signed x x) input
    sum ← sum_nodes squares
    inverse_width ← constant (float.div float.one (float.of_nat (length input)))
    mean ← scale_signed sum inverse_width
    eps ← constant epsilon
    variance ← add mean eps
    log_variance ← log2 variance
    half ← constant float.half
    half_log ← scale_signed log_variance half
    root ← exp2 half_log
    inverse_root ← reciprocal_real root
    for_zip (λ x weight. do normalized ← scale_signed x inverse_root; mul_signed normalized weight)
        input weights

  -- One rotated pair.
  unfoldable pub rope_pair : NodeId → NodeId → NodeId → NodeId → Build float (NodeId × NodeId)
  rope_pair x y cos sin = do
    x_cos ← mul_signed x cos
    y_sin ← mul_signed y sin
    minus_y_sin ← neg_real y_sin
    first ← add x_cos minus_y_sin
    x_sin ← mul_signed x sin
    y_cos ← mul_signed y cos
    second ← add x_sin y_cos
    done (first, second)

  unfoldable pub rope_nodes : List NodeId → List NodeId → List NodeId → Build float (List NodeId)
  rope_nodes (x ∷ y ∷ rest) (cos ∷ cosines) (sin ∷ sines) = do
    pair ← rope_pair x y cos sin
    others ← rope_nodes rest cosines sines
    done (pair.0 ∷ pair.1 ∷ others)
  rope_nodes input cosines sines = done []

  unfoldable pub softmax_nodes : List NodeId → Build float (List NodeId)
  softmax_nodes input = do
    log2_base ← constant float.log2_e
    exps ← for_each (λ x. natural_exp x log2_base) input
    sum ← sum_nodes exps
    inverse ← reciprocal_real sum
    for_each (λ x. mul x inverse) exps

  unfoldable pub swiglu_nodes : List NodeId → List NodeId → Build float (List NodeId)
  swiglu_nodes gate up = do
    log2_base ← constant float.log2_e
    unit ← one
    for_zip
        (λ g u. do
          negative ← neg_real g
          exp ← natural_exp negative log2_base
          denominator ← add unit exp
          sigmoid ← reciprocal_real denominator
          silu ← scale_signed g sigmoid
          mul_signed silu u)
        gate up
