-- ===== src/Domain/Transformer/Bounded/Op.antt =====
-- crates/domain/src/transformer/bounded_ops.rs: the stages of the bounded softmax, and the operations.
use bml.Prelude.{ℕ, ◌-◌, Bool, not, ◌||◌, List, ◌++◌, ltb, ◌==◌, length, Result, ok, ◌>>◌}
use bml.Float.{Float}
use bml.Domain.Ast.{NodeId}
use bml.Domain.Soa.{NodeSoa, len}
use bml.Domain.Transformer.{Build}
use bml.Domain.Transformer.Operations.{checked_add, reject, check_nodes, execute}
use bml.Domain.Transformer.Bounded.{
  named_softmax_stage, BoundedBuildError, parameter, shape, invalid_node, size_overflow, allocation,
  u32_max, too_large,
}
use bml.Domain.Transformer.Bounded.OpConfig.{
  BoundedOpConfig, input_count, external_count, output_count, is_wide, is_softmax, fixed_literals,
}
use bml.Domain.Transformer.Bounded.OpPrograms.{
  softmax_exp_nodes, softmax_reduce_nodes, softmax_sum_nodes, softmax_inverse_nodes,
  softmax_output_nodes, softmax_normalize_nodes, operation_nodes, with_literals,
}
use bml.Domain.Transformer.Bounded.Rms.{room}

module _ (float : Float) where
  -- `bounded_softmax_stage_literals`, before the literals.
  unfoldable pub softmax_stage_check :
      NodeSoa float → List NodeId → ℕ → BoundedOpConfig float → Result BoundedBuildError (Unit {0})
  softmax_stage_check soa operands arity config = do
    reject (not (is_softmax config.kind)) (parameter named_softmax_stage)
    reject (not (length operands == arity)) shape
    check_nodes invalid_node (len float soa) operands
    reject
        (too_large (checked_add (len float soa) 16384)
          || ltb (u32_max - 10) (length soa.const_pool))
        size_overflow

  unfoldable pub softmax_stage :
      (List NodeId → List NodeId → Build float NodeId)
      → ℕ
      → NodeSoa float
      → List NodeId
      → BoundedOpConfig float
      → Result BoundedBuildError NodeId × NodeSoa float
  softmax_stage nodes arity soa operands config =
      execute float
        (softmax_stage_check soa operands arity config
          >> ok (with_literals (fixed_literals float config) (nodes operands)))
        soa

  unfoldable pub softmax_bounded_exp :
      NodeSoa float
      → List NodeId
      → BoundedOpConfig float
      → Result BoundedBuildError NodeId × NodeSoa float
  softmax_bounded_exp soa operands config = softmax_stage softmax_exp_nodes 2 soa operands config

  unfoldable pub softmax_bounded_reduce :
      NodeSoa float
      → List NodeId
      → BoundedOpConfig float
      → Result BoundedBuildError NodeId × NodeSoa float
  softmax_bounded_reduce soa operands config =
      softmax_stage softmax_reduce_nodes 3 soa operands config

  unfoldable pub softmax_bounded_sum :
      NodeSoa float
      → List NodeId
      → BoundedOpConfig float
      → Result BoundedBuildError NodeId × NodeSoa float
  softmax_bounded_sum soa operands config = softmax_stage softmax_sum_nodes 2 soa operands config

  unfoldable pub softmax_bounded_inverse :
      NodeSoa float
      → List NodeId
      → BoundedOpConfig float
      → Result BoundedBuildError NodeId × NodeSoa float
  softmax_bounded_inverse soa operands config =
      softmax_stage softmax_inverse_nodes 1 soa operands config

  unfoldable pub softmax_bounded_output :
      NodeSoa float
      → List NodeId
      → BoundedOpConfig float
      → Result BoundedBuildError NodeId × NodeSoa float
  softmax_bounded_output soa operands config =
      softmax_stage softmax_output_nodes 3 soa operands config

  unfoldable pub softmax_bounded_normalize :
      NodeSoa float
      → List NodeId
      → BoundedOpConfig float
      → Result BoundedBuildError NodeId × NodeSoa float
  softmax_bounded_normalize soa operands config =
      softmax_stage softmax_normalize_nodes 2 soa operands config

  unfoldable pub operation_bounded :
      (ℕ → Bool)
      → NodeSoa float
      → List NodeId
      → List NodeId
      → BoundedOpConfig float
      → Result BoundedBuildError (List NodeId) × NodeSoa float
  operation_bounded reserve soa operands external config = execute float checked soa
    where
      -- `const_pool.len().checked_add(literals.len())`
      pool_room : Bool
      pool_room =
          too_large (checked_add (length soa.const_pool) (length (fixed_literals float config)))

      checked : Result BoundedBuildError (Build float (List NodeId))
      checked = do
        reject
            (not (length operands == input_count float config)
              || not (length external == external_count float config))
            shape
        check_nodes invalid_node (len float soa) (operands ++ external)
        reject (too_large (room float soa (input_count float config)) || pool_room) size_overflow
        reject (not (reserve (output_count float config))) allocation
        ok (
            with_literals (fixed_literals float config)
              (operation_nodes config.kind config.width (is_wide float config) operands external))
