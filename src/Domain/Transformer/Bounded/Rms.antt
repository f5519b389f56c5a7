-- ===== src/Domain/Transformer/Bounded/Rms.antt =====
-- crates/domain/src/transformer/bounded.rs: the stages of the bounded normalization, and the whole.
use bml.Prelude.{
  ℕ, ◌-◌, Bool, not, ◌||◌, Option, none, some, List, ◌++◌, ltb, ◌==◌, length, Result, ok, ◌>>◌,
}
use bml.Float.{Float}
use bml.Domain.Ast.{NodeId}
use bml.Domain.Soa.{NodeSoa, len}
use bml.Domain.Transformer.{Build}
use bml.Domain.Transformer.Operations.{checked_mul, checked_add, reject, check_nodes, execute}
use bml.Domain.Transformer.Bounded.{
  BoundedBuildError, shape, invalid_node, size_overflow, allocation, u32_max, too_large,
  stage_check,
}
use bml.Domain.Transformer.Bounded.RmsConfig.{BoundedRmsConfig, fixed_literals}
use bml.Domain.Transformer.Bounded.Programs.{
  rms_reduce_stage, rms_prepare_stage, rms_output_stage, rms_norm_bounded_nodes,
}

module _ (float : Float) where
  abbrev Answer : Type 0 → Type 0
  Answer A = Result BoundedBuildError A × NodeSoa float

  unfoldable pub rms_norm_bounded_reduce :
      NodeSoa float → List NodeId → BoundedRmsConfig float → Answer NodeId
  rms_norm_bounded_reduce soa operands config =
      execute float
        (stage_check float soa operands 2
          >> ok (rms_reduce_stage (fixed_literals float config) operands))
        soa

  -- The inverse root and the shift.
  unfoldable pub rms_norm_bounded_prepare :
      NodeSoa float → List NodeId → BoundedRmsConfig float → Answer (NodeId × NodeId)
  rms_norm_bounded_prepare soa operands config =
      execute float
        (stage_check float soa operands 1
          >> ok (rms_prepare_stage (fixed_literals float config) operands))
        soa

  unfoldable pub rms_norm_bounded_output :
      NodeSoa float → List NodeId → BoundedRmsConfig float → Answer NodeId
  rms_norm_bounded_output soa operands config =
      execute float
        (stage_check float soa operands 4
          >> ok (rms_output_stage (fixed_literals float config) operands))
        soa

  -- The bound on the nodes of an operation of a width, with those of the columns.
  unfoldable pub room : NodeSoa float → ℕ → Option ℕ
  room soa width = with_margin (checked_mul width 4096)
    where
      with_nodes : Option ℕ → Option ℕ
      with_nodes none = none
      with_nodes (some n) = checked_add n (len float soa)

      with_margin : Option ℕ → Option ℕ
      with_margin none = none
      with_margin (some n) = with_nodes (checked_add n 16384)

  unfoldable pub rms_norm_bounded :
      (ℕ → Bool)
      → NodeSoa float
      → List NodeId
      → List NodeId
      → BoundedRmsConfig float
      → Answer (List NodeId)
  rms_norm_bounded reserve soa operands weights config = execute float checked soa
    where
      checked : Result BoundedBuildError (Build float (List NodeId))
      checked = do
        reject (not (length operands == config.width) || not (length weights == config.width)) shape
        check_nodes invalid_node (len float soa) (operands ++ weights)
        reject (too_large (room soa config.width) || ltb (u32_max - 17) (length soa.const_pool))
            size_overflow
        reject (not (reserve config.width)) allocation
        ok (rms_norm_bounded_nodes (fixed_literals float config) operands weights)
