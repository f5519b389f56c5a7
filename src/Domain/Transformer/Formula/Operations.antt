-- ===== src/Domain/Transformer/Formula/Operations.antt =====
-- The numbers that the operations on tensors of crates/domain/src/transformer/operations.rs stand for:
-- the formulas that their comments name, with the arithmetic of the expansions.
use bml.Prelude.{ℕ, ◌+◌, ◌*◌, List, [], ◌∷◌, map, length, get_or}
use bml.Float.{Float}
use bml.Domain.Transformer.Loops.{range, flatten, zip_with, fold}
use bml.Domain.Transformer.Formula.{
  exp2, log2, neg_real, add, mul, scale_signed, mul_signed, reciprocal_real, natural_exp,
}

module _ (float : Float) where
  open float use {F64}

  unfoldable pub sum : List F64 → F64
  sum [] = float.zero
  sum (first ∷ rest) = fold (add float) first rest

  unfoldable pub matmul_entry : List F64 → List F64 → ℕ → ℕ → ℕ → ℕ → F64
  matmul_entry left right inner columns row column = sum (
      map
        (λ k.
          mul_signed float (get_or left (row * inner + k) float.zero)
            (get_or right (k * columns + column) float.zero))
        (range 0 inner))

  -- The product of matrices in rows.
  unfoldable pub matmul : List F64 → List F64 → ℕ → ℕ → ℕ → List F64
  matmul left right rows inner columns = flatten (
      map
        (λ row. map (λ column. matmul_entry left right inner columns row column) (range 0 columns))
        (range 0 rows))

  -- The inverse of the root of the mean of the squares.
  unfoldable pub inverse_rms : List F64 → F64 → F64
  inverse_rms input epsilon =
      let mean =
        scale_signed float (sum (map (λ x. mul_signed float x x) input))
          (float.div float.one (float.of_nat (length input))) in
      let root = exp2 float (scale_signed float (log2 float (add float mean epsilon)) float.half) in
      reciprocal_real float root

  unfoldable pub rms_norm : List F64 → List F64 → F64 → List F64
  rms_norm input weights epsilon =
      zip_with
        (λ x weight. mul_signed float (scale_signed float x (inverse_rms input epsilon)) weight)
        input weights

  unfoldable pub rope : List F64 → List F64 → List F64 → List F64
  rope (x ∷ y ∷ rest) (cos ∷ cosines) (sin ∷ sines) =
      add float (mul_signed float x cos) (neg_real float (mul_signed float y sin))
      ∷ add float (mul_signed float x sin) (mul_signed float y cos)
      ∷ rope rest cosines sines
  rope input cosines sines = []

  unfoldable pub softmax : List F64 → List F64
  softmax input =
      let exps = map (λ x. natural_exp float x float.log2_e) input in
      map (λ x. mul float x (reciprocal_real float (sum exps))) exps

  unfoldable pub swiglu : List F64 → List F64 → List F64
  swiglu gate up =
      zip_with
        (λ g u.
          let sigmoid =
            reciprocal_real float
              (add float float.one (natural_exp float (neg_real float g) float.log2_e)) in
          mul_signed float (scale_signed float g sigmoid) u)
        gate up
