-- ===== src/Domain/Transformer/Formula/Programs.antt =====
-- The numbers that the bounded normalization in crates/domain/src/transformer/bounded.rs stands for, from
-- its literals and the operands.
use bml.Prelude.{ℕ, List, map, get_or}
use bml.Float.{Float}
use bml.Domain.Transformer.Loops.{zip_with, fold}
use bml.Domain.Transformer.Formula.{mul_signed}
use bml.Domain.Transformer.Formula.Bounded.{bounded_normalize, bounded_positive_add}
use bml.Domain.Transformer.Formula.Stages.{rms_prepare, rms_weighted}

module _ (float : Float) where
  open float use {F64}

  -- The normalization in one construction.
  unfoldable pub rms_norm_bounded : List F64 → List F64 → List F64 → List F64
  rms_norm_bounded c input weights =
      let lit = λ (i : ℕ). get_or c i float.zero in
      let normalized = map (λ x. bounded_normalize float x (lit 2) (lit 3) (lit 1) (lit 0)) input in
      let total =
        fold (λ total x. bounded_positive_add float total (mul_signed float x x) (lit 1)) (lit 4)
          normalized in
      let prepared = rms_prepare float c float.one total in
      zip_with (λ x weight. rms_weighted float c x weight prepared.0 prepared.1) normalized weights
