-- ===== src/Domain/Transformer/Bounded.antt =====
-- crates/domain/src/transformer/bounded.rs: the errors of the operations with declared bounds, and the
-- checks of operands that they share.
pub mod Arithmetic
pub mod Stages
pub mod Programs
pub mod RmsConfig
pub mod Rms
pub mod OpConfig
pub mod OpPrograms
pub mod Op
use bml.Prelude.{
  ℕ, zero, suc, ◌+◌, ◌-◌, ◌*◌, ◌/◌, ◌%◌, ◌^◌, ◌≤◌, ◌<◌, min, max, ◌≡◌, ◌≢◌, refl, sym, ap, ap₂, ◌∙◌,
  subst, Bool, true, false, not, ◌&&◌, ◌||◌, cond, Option, none, some, List, [], ◌∷◌, ◌++◌, map,
  append_assoc, append-nil, ◌⊎◌, inl, inr, ◌↔◌, arith, tests, ltb, leb, ltb→lt, lt→ltb, ltb→le,
  ltb-eq-false, leb→le, ◌==◌, ==_iff, ==_refl, if◌then◌else◌, Bool-cases, Option-cases, length,
  get_elem?, get_or, set, take, drop, replicate, length-append, length-set, length-replicate,
  get_or-set_self, get_or-set_ne, get_or-replicate, get_or_of_ge, length-drop, drop-length_append,
  take-length_append, get_elem?-append_left, get_elem?-append_end, length-map, Result, ok, err,
  ok_or, map_err, ◌>>=◌, ◌>>◌, Result-cases, >>-eq-ok,
}
use bml.Float.{Float}
use bml.Domain.Ast.{NodeId}
use bml.Domain.Soa.{NodeSoa, len}
use bml.Domain.Transformer.Operations.{checked_add, reject, check_nodes}

-- The names of the parameters in the messages.
pub data ParameterName : Type 0 where
  named_width : ParameterName
  named_epsilon : ParameterName
  named_input_bound : ParameterName
  named_weight_bound : ParameterName
  named_normalized_weight_product : ParameterName
  named_scaled_epsilon : ParameterName
  named_operand_bound : ParameterName
  named_operand_bound_product : ParameterName
  named_addition_range : ParameterName
  named_rotation_range : ParameterName
  named_sigmoid_range : ParameterName
  named_softmax_range : ParameterName
  named_softmax_width : ParameterName
  named_softmax_stage : ParameterName

pub data BoundedBuildError : Type 0 where
  parameter : ParameterName → BoundedBuildError
  shape : BoundedBuildError
  invalid_node : NodeId → BoundedBuildError
  size_overflow : BoundedBuildError
  allocation : BoundedBuildError
  input : ℕ → BoundedBuildError
  weight : ℕ → BoundedBuildError

-- `u32::MAX as usize`
abbrev pub u32_max : ℕ
u32_max = 2 ^ 32 - 1

-- `is_none_or(|size| size > u32::MAX as usize)`
unfoldable pub too_large : Option ℕ → Bool
too_large none = true
too_large (some size) = ltb u32_max size

-- The first position at which the test fails, as an error.
unfoldable pub check_positions {ℓ} :
    {A : Type ℓ}
    → (ℕ → BoundedBuildError)
    → (ℕ → A → Bool)
    → ℕ
    → List A
    → Result BoundedBuildError (Unit {0})
check_positions problem valid index [] = ok tt
check_positions problem valid index (value ∷ values) =
    if valid index value
    then check_positions problem valid (suc index) values
    else err (problem index)

module _ (float : Float) where
  open float use {F64}

  -- `(low..=high).contains(&value)`
  unfoldable pub within : F64 → F64 → F64 → Bool
  within low high value = float.le low value && float.le value high

  -- `1.0 / 256.0..=256.0`
  unfoldable pub is_bound : F64 → Bool
  is_bound value =
      float.is_finite value
      && within (float.div float.one (float.of_nat 256)) (float.of_nat 256) value

  -- The operands of a stage, and its room in the columns.
  unfoldable pub stage_check : NodeSoa float → List NodeId → ℕ → Result BoundedBuildError (Unit {0})
  stage_check soa operands arity = do
    reject (not (length operands == arity)) shape
    check_nodes invalid_node (len float soa) operands
    reject (too_large (checked_add (len float soa) 16384)) size_overflow
