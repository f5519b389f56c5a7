-- ===== src/Domain/Transformer/Bounded/RmsConfig.antt =====
-- crates/domain/src/transformer/bounded.rs: `BoundedRmsConfig`.
use bml.Prelude.{ℕ, ◌*◌, Bool, not, ◌||◌, List, [], ◌∷◌, ltb, ◌==◌, length, Result, ok, ◌>>◌}
use bml.Float.{Float}
use bml.Domain.Transformer.Operations.{reject}
use bml.Domain.Transformer.Bounded.{
  named_width, named_epsilon, named_input_bound, named_weight_bound,
  named_normalized_weight_product, named_scaled_epsilon, BoundedBuildError, parameter, shape, input,
  weight, check_positions, within, is_bound,
}

module _ (float : Float) where
  open float use {F64}

  pub record BoundedRmsConfig : Type 0 where
    pub width : ℕ
    pub epsilon : F64
    pub input_bound : F64
    pub weight_bound : F64
    pub normalized_bound : F64
    pub log_variance_bound : F64

  -- `(width as f64).sqrt().ceil() + 1.0`
  unfoldable pub normalized_bound_of : ℕ → F64
  normalized_bound_of width = float.add (float.ceil (float.sqrt (float.of_nat width))) float.one

  unfoldable pub log_variance_bound_of : F64 → F64
  log_variance_bound_of scaled_epsilon =
      float.add
        (float.larger (float.abs (float.log2 scaled_epsilon))
          (float.abs (float.log2 (float.add float.one scaled_epsilon))))
        float.one

  -- `BoundedRmsConfig::new`
  unfoldable pub new : ℕ → F64 → F64 → F64 → Result BoundedBuildError BoundedRmsConfig
  new width epsilon input_bound weight_bound = do
    reject (width == 0 || ltb (255 * 255) width) (parameter named_width)
    reject (not (float.is_finite epsilon) || float.le epsilon float.zero) (parameter named_epsilon)
    reject (not (is_bound float input_bound)) (parameter named_input_bound)
    reject (not (is_bound float weight_bound)) (parameter named_weight_bound)
    reject (float.lt (float.of_nat 480) (float.mul (normalized_bound_of width) weight_bound))
        (parameter named_normalized_weight_product)
    reject
        (not (
          within float float.tiny float.one
            (float.div epsilon (float.mul input_bound input_bound))))
        (parameter named_scaled_epsilon)
    ok (record {
      width = width;
      epsilon = epsilon;
      input_bound = input_bound;
      weight_bound = weight_bound;
      normalized_bound = normalized_bound_of width;
      log_variance_bound =
          log_variance_bound_of (float.div epsilon (float.mul input_bound input_bound));
    })

  unfoldable pub fixed_literals : BoundedRmsConfig → List F64
  fixed_literals config =
      let m = config.input_bound in
      let w = config.weight_bound in
      let k = config.normalized_bound in
      let l = config.log_variance_bound in
      let two = float.of_nat 2 in
      float.of_nat 64
      ∷ two
      ∷ float.mul two m
      ∷ float.div float.one m
      ∷ float.mul (float.of_nat config.width) (float.div config.epsilon (float.mul m m))
      ∷ float.div float.one (float.of_nat config.width)
      ∷ float.half
      ∷ l
      ∷ float.mul two l
      ∷ float.div float.one l
      ∷ k
      ∷ float.mul two k
      ∷ float.div float.one k
      ∷ float.mul two w
      ∷ float.div float.one w
      ∷ float.mul k w
      ∷ float.mul (float.mul two k) w
      ∷ []

  -- `!value.is_finite() || value.abs() > bound`, negated
  unfoldable pub in_bound : F64 → F64 → Bool
  in_bound bound value = not (not (float.is_finite value) || float.lt bound (float.abs value))

  unfoldable pub validate_values :
      BoundedRmsConfig → List F64 → List F64 → Result BoundedBuildError (Unit {0})
  validate_values config inputs weights = do
    reject (not (length inputs == config.width) || not (length weights == config.width)) shape
    check_positions input (λ index value. in_bound config.input_bound value) 0 inputs
    check_positions weight (λ index value. in_bound config.weight_bound value) 0 weights
