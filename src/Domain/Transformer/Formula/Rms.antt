-- ===== src/Domain/Transformer/Formula/Rms.antt =====
-- The numbers that the bounded normalization of crates/domain/src/transformer/bounded.rs stands for, from
-- its configuration: every constant is written by its meaning.
use bml.Prelude.{List, map}
use bml.Float.{Float}
use bml.Domain.Transformer.Loops.{zip_with, fold}
use bml.Domain.Transformer.Bounded.RmsConfig.{BoundedRmsConfig}
use bml.Domain.Transformer.Formula.{mul_signed, log2, exp2, sub}
use bml.Domain.Transformer.Formula.Bounded.{bounded_add, bounded_normalize, bounded_product}
use bml.Domain.Transformer.Formula.Within.{
  number, twice, inverse_of, times, unit, product_within, sum_with, reciprocal,
}

module _ (float : Float) (config : BoundedRmsConfig float) where
  open float use {F64}

  -- The width times the epsilon, in units of the square of the input bound.
  abbrev pub scaled_epsilon : F64
  scaled_epsilon =
      float.mul (number float config.width)
        (float.div config.epsilon (float.mul config.input_bound config.input_bound))

  -- A total with the square of a number of the unit interval.
  unfoldable pub add_square : F64 → F64 → F64
  add_square total x = sum_with float total (mul_signed float x x)

  unfoldable pub total_square : List F64 → F64
  total_square xs = fold add_square scaled_epsilon xs

  -- The square root of the mean, as the exponential of half of its logarithm.
  unfoldable pub root_mean : F64 → F64
  root_mean total =
      let mean = times float total (inverse_of float (number float config.width)) in
      exp2 float (
        bounded_product float (unit float config.log_variance_bound (log2 float mean))
          (bounded_normalize float float.half (number float 2) float.one (number float 2)
            (number float 64))
          config.log_variance_bound (twice float config.log_variance_bound) (number float 2)
          (number float 64))

  -- An element over the root, from the inverse of the root and the shift that makes it positive, times
  -- its weight.
  unfoldable pub weighted : F64 → F64 → F64 → F64 → F64
  weighted inverse_root shift x weight =
      let ratio = times float (bounded_add float x shift (number float 2)) inverse_root in
      product_within float config.normalized_bound config.weight_bound
        (sub float ratio config.normalized_bound) weight

  -- The normalized bound, in units of the inverse of the root.
  unfoldable pub shift_by : F64 → F64
  shift_by root = times float config.normalized_bound root

  unfoldable pub normalization : List F64 → List F64 → List F64
  normalization xs weights =
      let units = map (unit float config.input_bound) xs in
      let root = root_mean (total_square units) in
      zip_with (weighted (reciprocal float root) (shift_by root)) units weights
