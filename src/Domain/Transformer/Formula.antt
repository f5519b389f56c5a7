-- ===== src/Domain/Transformer/Formula.antt =====
-- The numbers that the operations of crates/domain/src/transformer.rs stand for, as formulas of the
-- operator on floats.
pub mod Bounded
pub mod Operations
pub mod Stages
pub mod Programs
pub mod Op
pub mod Within
pub mod Rms
use bml.Float.{Float}
use bml.Domain.Operator.{bml_base_op}

module _ (float : Float) where
  open float use {F64}

  abbrev pub one : F64
  one = float.one

  abbrev pub apply : F64 → F64 → F64
  apply x y = bml_base_op float x y

  unfoldable pub two : F64
  two = let first = one in let second = one in apply first second

  unfoldable pub exp2 : F64 → F64
  exp2 x = let unit = one in apply x unit

  unfoldable pub log2 : F64 → F64
  log2 x =
      let first = one in
      let second = one in
      let third = one in
      let inner = apply first x in let outer = apply inner second in apply third outer

  unfoldable pub sub : F64 → F64 → F64
  sub x y = let log_x = log2 x in let exp_y = exp2 y in apply log_x exp_y

  unfoldable pub neg : F64 → F64
  neg x =
      let unit = one in
      let nought = log2 unit in
      let infinite = log2 nought in let exp_x = exp2 x in apply infinite exp_x

  unfoldable pub neg_real : F64 → F64
  neg_real x = let p = exp2 x in let q = apply x p in sub q p

  unfoldable pub add : F64 → F64 → F64
  add x y = let p = exp2 x in let q = apply x p in let remainder = sub q y in sub p remainder

  unfoldable pub mul : F64 → F64 → F64
  mul x y = let log_x = log2 x in let log_y = log2 y in let sum = add log_x log_y in exp2 sum

  unfoldable pub scale_signed : F64 → F64 → F64
  scale_signed x y =
      let p = exp2 x in
      let q = apply x p in let left = mul p y in let right = mul q y in sub left right

  unfoldable pub mul_signed : F64 → F64 → F64
  mul_signed x y =
      let p = exp2 x in
      let q = apply x p in
      let r = exp2 y in
      let s = apply y r in
      let pr = mul p r in
      let qs = mul q s in
      let ps = mul p s in
      let qr = mul q r in
      let positive = add pr qs in let negative = add ps qr in sub positive negative

  unfoldable pub recip : F64 → F64
  recip x = let log_x = log2 x in let negative = neg log_x in exp2 negative

  unfoldable pub div : F64 → F64 → F64
  div x y = let inverse = recip y in mul x inverse

  unfoldable pub pow : F64 → F64 → F64
  pow x y = let log_x = log2 x in let product = mul y log_x in exp2 product

  unfoldable pub reciprocal_real : F64 → F64
  reciprocal_real x = let log_x = log2 x in let negative = neg_real log_x in exp2 negative

  unfoldable pub natural_exp : F64 → F64 → F64
  natural_exp x log2_base = let exponent = scale_signed x log2_base in exp2 exponent
