-- ===== src/Domain/Transformer/Bounded/Programs.antt =====
-- crates/domain/src/transformer/bounded.rs: the nodes that the stages of the bounded normalization append,
-- with their literals.
use bml.Prelude.{ℕ, List, get_or}
use bml.Float.{Float}
use bml.Domain.Ast.{NodeId}
use bml.Domain.Transformer.{Build, ◌>>=◌}
use bml.Domain.Transformer.Loops.{for_each, for_zip, fold_nodes}
use bml.Domain.Transformer.Arithmetic.{one, constant, mul_signed}
use bml.Domain.Transformer.Bounded.Arithmetic.{bounded_normalize, bounded_positive_add}
use bml.Domain.Transformer.Bounded.Stages.{rms_reduce, rms_prepare, rms_weighted, rms_output}

-- An operand at its position.
abbrev pub operand : List NodeId → ℕ → NodeId
operand operands i = get_or operands i 0

module _ {float : Float} where
  open float use {F64}

  -- The literals as nodes, in order.
  unfoldable pub constants : List F64 → Build float (List NodeId)
  constants literals = for_each (λ value. constant value) literals

  unfoldable pub rms_reduce_stage : List F64 → List NodeId → Build float NodeId
  rms_reduce_stage literals operands = do
    c ← constants literals
    rms_reduce c (operand operands 0) (operand operands 1)

  unfoldable pub rms_prepare_stage : List F64 → List NodeId → Build float (NodeId × NodeId)
  rms_prepare_stage literals operands = do
    c ← constants literals
    unit ← one
    rms_prepare c unit (operand operands 0)

  unfoldable pub rms_output_stage : List F64 → List NodeId → Build float NodeId
  rms_output_stage literals operands = do
    c ← constants literals
    rms_output c (operand operands 0) (operand operands 1) (operand operands 2) (operand operands 3)

  -- The nodes of `rms_norm_bounded` after its checks.
  unfoldable pub rms_norm_bounded_nodes :
      List F64 → List NodeId → List NodeId → Build float (List NodeId)
  rms_norm_bounded_nodes literals operands weights = do
    c ← constants literals
    unit ← one
    normalized ←
        for_each (λ x. bounded_normalize x (operand c 2) (operand c 3) (operand c 1) (operand c 0))
          operands
    total ←
        fold_nodes
          (λ total x. do square ← mul_signed x x; bounded_positive_add total square (operand c 1))
          (operand c 4) normalized
    prepared ← rms_prepare c unit total
    for_zip (λ x weight. rms_weighted c x weight prepared.0 prepared.1) normalized weights
