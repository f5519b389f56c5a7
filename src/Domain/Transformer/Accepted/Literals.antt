-- ===== src/Domain/Transformer/Accepted/Literals.antt =====
-- The literals of the configurations of crates/domain/src/transformer/bounded.rs and bounded_ops.rs are
-- the constants of the formulas.
use bml.Prelude.{ℕ, ◌≡◌, refl, ap, Bool, true, false, List, [], ◌∷◌, map, get_or, take}
use bml.Float.{Float}
use bml.Domain.Transformer.Bounded.RmsConfig.{BoundedRmsConfig}
use bml.Domain.Transformer.Bounded.RmsConfig as RmsConfig
use bml.Domain.Transformer.Bounded.OpConfig.{
  Kind, kind_product, kind_add, kind_dot_step, kind_rope, kind_swiglu, kind_softmax,
  BoundedOpConfig, is_wide, product_literals, swiglu_literals, fixed_literals,
}
use bml.Domain.Transformer.Formula.Bounded.{product_with_literals}
use bml.Domain.Transformer.Formula.Stages.{
  rms_reduce, rms_prepare, rms_weighted, rms_output, softmax_exp, softmax_inverse, bounded_dot_step,
  bounded_rotation, sigmoid_numerator, wide_denominator, swiglu_output,
}
use bml.Domain.Transformer.Formula.Op.{denominator, swiglu, total, softmax, product, operation}
use bml.Domain.Transformer.Formula.Programs.{rms_norm_bounded}
use bml.Domain.Transformer.Formula.Within.{
  times, unit, product_within, dot_step_within, rotation_within, exponential_within,
  softmax_exp_within, reciprocal, sum_with, total_of, softmax_within, sigmoid_numerator_within,
  denominator_within, swiglu_within, operation_within,
}
use bml.Domain.Transformer.Formula.Rms.{
  add_square, total_square, root_mean, shift_by, weighted, normalization,
}

module _ (float : Float) where
  open float use {F64}

  pub rms_reduce-add_square :
      (config : BoundedRmsConfig float) (t x : F64)
      → rms_reduce float (RmsConfig.fixed_literals float config) t x
        ≡ add_square float config t (unit float config.input_bound x)
  unfolding rms_reduce RmsConfig.fixed_literals add_square sum_with unit
  rms_reduce-add_square config t x = refl

  pub rms_prepare-reciprocal :
      (config : BoundedRmsConfig float) (t : F64)
      → (rms_prepare float (RmsConfig.fixed_literals float config) float.one t).0
        ≡ reciprocal float (root_mean float config t)
  unfolding rms_prepare RmsConfig.fixed_literals root_mean reciprocal times unit
  rms_prepare-reciprocal config t = refl

  pub rms_prepare-shift_by :
      (config : BoundedRmsConfig float) (t : F64)
      → (rms_prepare float (RmsConfig.fixed_literals float config) float.one t).1
        ≡ shift_by float config (root_mean float config t)
  unfolding rms_prepare RmsConfig.fixed_literals root_mean shift_by times unit
  rms_prepare-shift_by config t = refl

  pub rms_output-weighted :
      (config : BoundedRmsConfig float) (x w i s : F64)
      → rms_output float (RmsConfig.fixed_literals float config) x w i s
        ≡ weighted float config i s (unit float config.input_bound x) w
  unfolding rms_output rms_weighted RmsConfig.fixed_literals weighted product_within unit times
  rms_output-weighted config x w i s = refl

  pub rms_norm_bounded-normalization :
      (config : BoundedRmsConfig float) (xs weights : List F64)
      → rms_norm_bounded float (RmsConfig.fixed_literals float config) xs weights
        ≡ normalization float config xs weights
  unfolding rms_norm_bounded normalization rms_prepare rms_weighted RmsConfig.fixed_literals times
      unit product_within sum_with reciprocal add_square total_square root_mean shift_by weighted
  rms_norm_bounded-normalization config xs weights = refl

  abbrev pub op_of : Kind → ℕ → F64 → F64 → BoundedOpConfig float
  op_of kind width left right = record { kind = kind; width = width; left = left; right = right }

  swiglu-swiglu_within :
      (config : BoundedOpConfig float) (wide : Bool)
      → is_wide float config ≡ wide
      → (gate up : F64)
      → swiglu float wide gate up (float.of_nat 64 ∷ float.of_nat 2 ∷ swiglu_literals float config)
        ≡ swiglu_within float wide config.left config.right gate up
  unfolding swiglu swiglu_literals product_literals denominator sigmoid_numerator wide_denominator
      swiglu_output product_with_literals swiglu_within sigmoid_numerator_within denominator_within
      exponential_within product_within unit times reciprocal sum_with
  swiglu-swiglu_within config true e gate up = rw e refl
  swiglu-swiglu_within config false e gate up = rw e refl

  pub softmax_exp-softmax_exp_within :
      (config : BoundedOpConfig float) (score maximum : F64)
      → config.kind ≡ kind_softmax
      → softmax_exp float (fixed_literals float config) score maximum
        ≡ softmax_exp_within float config.left score maximum
  unfolding softmax_exp fixed_literals product_literals product_with_literals softmax_exp_within
      exponential_within product_within unit
  softmax_exp-softmax_exp_within config score maximum e = rw e refl

  total-total_of :
      (c : List F64) (xs : List F64)
      → total float (float.of_nat 64 ∷ float.of_nat 2 ∷ c) xs ≡ total_of float xs
  unfolding total total_of sum_with
  total-total_of c [] = refl
  total-total_of c (x ∷ xs) = refl

  softmax-softmax_within :
      (left : F64) (width : ℕ) (xs : List F64)
      → softmax float width xs (
          float.of_nat 64
          ∷ float.of_nat 2
          ∷ float.mul (float.of_nat 2) left
          ∷ float.log2_e
          ∷ product_literals float (float.mul (float.of_nat 2) left) (float.of_nat 2))
        ≡ softmax_within float left (take width xs) (get_or xs width float.zero)
  unfolding softmax softmax_exp softmax_inverse product_literals product_with_literals
      softmax_within softmax_exp_within exponential_within product_within unit times reciprocal
  softmax-softmax_within left width xs =
      rw
        (total-total_of _ (
          map (λ score. softmax_exp_within float left score (get_or xs width float.zero))
            (take width xs)))
        refl

  -- The formula at the literals of a configuration is the formula at its bounds.
  pub operation-operation_within :
      (kind : Kind) (width : ℕ) (left right : F64) (xs es : List F64)
      → operation float kind width
          (is_wide float (op_of kind width left right))
          xs
          es
          (fixed_literals float (op_of kind width left right))
        ≡ operation_within float kind width left right xs es
  unfolding operation operation_within fixed_literals product_literals product product_with_literals
      bounded_dot_step bounded_rotation dot_step_within rotation_within product_within unit
  operation-operation_within kind_product width left right xs es = refl
  operation-operation_within kind_add width left right xs es = refl
  operation-operation_within kind_dot_step width left right xs es = refl
  operation-operation_within kind_rope width left right xs es = refl
  operation-operation_within kind_swiglu width left right xs es =
      ap (λ x. x ∷ [])
        (unfold is_wide in swiglu-swiglu_within (op_of kind_swiglu width left right) _ refl _ _)
  operation-operation_within kind_softmax width left right xs es =
      softmax-softmax_within left width xs
