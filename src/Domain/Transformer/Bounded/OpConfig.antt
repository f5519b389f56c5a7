-- ===== src/Domain/Transformer/Bounded/OpConfig.antt =====
-- crates/domain/src/transformer/bounded_ops.rs: `BoundedOpConfig`.
use bml.Prelude.{
  ℕ, ◌+◌, Bool, true, false, not, ◌&&◌, ◌||◌, List, [], ◌∷◌, ◌++◌, ltb, ◌==◌, if◌then◌else◌, length,
  get_or, take, Result, ok, ◌>>=◌, ◌>>◌,
}
use bml.Float.{Float}
use bml.Domain.Transformer.Operations.{reject}
use bml.Domain.Transformer.Bounded.{
  named_operand_bound, named_operand_bound_product, named_addition_range, named_rotation_range,
  named_sigmoid_range, named_softmax_range, named_softmax_width, BoundedBuildError, parameter,
  shape, input, weight, check_positions, is_bound,
}

pub data Kind : Type 0 where
  kind_product : Kind
  kind_add : Kind
  kind_dot_step : Kind
  kind_rope : Kind
  kind_swiglu : Kind
  kind_softmax : Kind

unfoldable pub is_dot_step : Kind → Bool
is_dot_step kind_dot_step = true
is_dot_step other = false

unfoldable pub is_softmax : Kind → Bool
is_softmax kind_softmax = true
is_softmax other = false

module _ (float : Float) where
  open float use {F64}

  pub record BoundedOpConfig : Type 0 where
    pub kind : Kind
    pub width : ℕ
    pub left : F64
    pub right : F64

  unfoldable pub bound : F64 → Result BoundedBuildError (Unit {0})
  bound value = reject (not (is_bound float value)) (parameter named_operand_bound)

  abbrev op : Kind → ℕ → F64 → F64 → BoundedOpConfig
  op kind width left right = record { kind = kind; width = width; left = left; right = right }

  unfoldable pub product : F64 → F64 → Result BoundedBuildError BoundedOpConfig
  product left right = do
    bound left
    bound right
    reject (float.lt (float.of_nat 480) (float.mul left right))
        (parameter named_operand_bound_product)
    ok (op kind_product 1 left right)

  unfoldable pub add : F64 → F64 → Result BoundedBuildError BoundedOpConfig
  add left right = do
    bound left
    bound right
    reject (float.lt (float.of_nat 960) (float.add (float.mul (float.of_nat 3) left) right))
        (parameter named_addition_range)
    ok (op kind_add 1 left right)

  unfoldable pub dot_step : F64 → F64 → Result BoundedBuildError BoundedOpConfig
  dot_step left right = do config ← product left right; ok (record config { kind = kind_dot_step })

  unfoldable pub rope : F64 → Result BoundedBuildError BoundedOpConfig
  rope input_bound = do
    bound input_bound
    reject (float.lt (float.of_nat 240) input_bound) (parameter named_rotation_range)
    ok (op kind_rope 2 input_bound float.one)

  unfoldable pub swiglu : F64 → F64 → Result BoundedBuildError BoundedOpConfig
  swiglu gate_bound up_bound = do
    config ← product gate_bound up_bound
    reject (float.lt (float.of_nat 18) gate_bound) (parameter named_sigmoid_range)
    ok (record config { kind = kind_swiglu })

  unfoldable pub softmax : ℕ → F64 → Result BoundedBuildError BoundedOpConfig
  softmax width input_bound = do
    bound input_bound
    reject (float.lt (float.of_nat 16) input_bound) (parameter named_softmax_range)
    reject (width == 0 || ltb 65536 width) (parameter named_softmax_width)
    ok (op kind_softmax width input_bound float.one)

  -- `inputs`, `external` and `outputs`
  unfoldable pub input_count : BoundedOpConfig → ℕ
  input_count config = of_kind config.kind
    where
      of_kind : Kind → ℕ
      of_kind kind_dot_step = 3
      of_kind kind_softmax = config.width + 1
      of_kind other = 2

  unfoldable pub external_count : BoundedOpConfig → ℕ
  external_count config = of_kind config.kind
    where
      of_kind : Kind → ℕ
      of_kind kind_rope = 2
      of_kind other = 0

  unfoldable pub output_count : BoundedOpConfig → ℕ
  output_count config = of_kind config.kind
    where
      of_kind : Kind → ℕ
      of_kind kind_rope = 2
      of_kind kind_softmax = config.width
      of_kind other = 1

  -- The literals of a product of operands with the bounds.
  unfoldable pub product_literals : F64 → F64 → List F64
  product_literals left right =
      let two = float.of_nat 2 in
      float.mul two left
      ∷ float.div float.one left
      ∷ float.mul two right
      ∷ float.div float.one right
      ∷ float.mul left right
      ∷ float.mul (float.mul two left) right
      ∷ []

  -- `self.left > 16.0`
  unfoldable pub is_wide : BoundedOpConfig → Bool
  is_wide config = float.lt (float.of_nat 16) config.left

  unfoldable pub swiglu_literals : BoundedOpConfig → List F64
  swiglu_literals config =
      let two = float.of_nat 2 in
      let shift = if is_wide config then float.of_nat 8 else config.left in
      (float.neg shift
        ∷ float.mul two config.left
        ∷ float.exp (float.neg shift)
        ∷ float.log2_e
        ∷ [])
      ++ product_literals (float.mul two config.left) two
      ++ product_literals config.left float.one
      ++ product_literals config.left config.right
      ++ (if is_wide config
          then float.powf two (float.neg (float.exp (float.neg shift))) ∷ []
          else [])

  unfoldable pub fixed_literals : BoundedOpConfig → List F64
  fixed_literals config = float.of_nat 64 ∷ float.of_nat 2 ∷ of_kind config.kind
    where
      of_kind : Kind → List F64
      of_kind kind_product = product_literals config.left config.right
      of_kind kind_add = float.mul (float.of_nat 2) config.left ∷ []
      of_kind kind_dot_step = product_literals config.left config.right ++ float.of_nat 256 ∷ []
      of_kind kind_rope =
          product_literals config.left float.one ++ float.mul (float.of_nat 2) config.left ∷ []
      of_kind kind_swiglu = swiglu_literals config
      of_kind kind_softmax =
          (float.mul (float.of_nat 2) config.left ∷ float.log2_e ∷ [])
          ++ product_literals (float.mul (float.of_nat 2) config.left) (float.of_nat 2)

  -- The bound of the input at a position.
  unfoldable pub limit : BoundedOpConfig → ℕ → F64
  limit config index = of_kind config.kind
    where
      of_kind : Kind → F64
      of_kind kind_product = if index == 1 then config.right else config.left
      of_kind kind_add = if index == 1 then config.right else config.left
      of_kind kind_swiglu = if index == 1 then config.right else config.left
      of_kind kind_dot_step = if index == 2 then config.right else config.left
      of_kind other = config.left

  unfoldable pub valid_input : BoundedOpConfig → ℕ → F64 → Bool
  valid_input config index value =
      float.is_finite value
      && (if is_dot_step config.kind && index == 0
          then float.lt value (float.of_nat 256)
          else float.le (float.abs value) (limit config index))

  -- The fold of the maximum from minus infinity.
  unfoldable pub maximum : F64 → List F64 → F64
  maximum m [] = m
  maximum m (value ∷ values) = maximum (float.larger m value) values

  unfoldable pub validate_values :
      BoundedOpConfig → List F64 → List F64 → Result BoundedBuildError (Unit {0})
  validate_values config inputs external = do
    reject
        (not (length inputs == input_count config)
          || not (length external == external_count config))
        shape
    check_positions input (valid_input config) 0 inputs
    check_positions weight
        (λ index value. not (not (float.is_finite value) || float.lt float.one (float.abs value))) 0
        external
    reject
        (is_softmax config.kind
          && not (
              float.eq (get_or inputs config.width float.nan)
                (maximum float.neg_infinity (take config.width inputs))))
        (input config.width)
