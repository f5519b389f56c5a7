-- ===== src/Float.antt =====
-- `f64` is not code of the repository: its type and the operations that the program calls are a
-- parameter of the model. A predicate on floats is a Boolean, and NaN makes comparisons false.
pub mod Numbers
use bml.Prelude.{ℕ, ◌≡◌, Bool}

pub record Float : Type 1 where
  pub F64 : Type 0
  pub zero : F64
  pub one : F64
  pub nan : F64
  pub neg_infinity : F64
  pub is_finite : F64 → Bool
  pub is_nan : F64 → Bool
  -- `a < b`, `a <= b` and `a == b` of IEEE 754.
  pub lt : F64 → F64 → Bool
  pub le : F64 → F64 → Bool
  pub eq : F64 → F64 → Bool
  pub exp : F64 → F64
  pub ln : F64 → F64
  pub exp2 : F64 → F64
  pub log2 : F64 → F64
  pub add : F64 → F64 → F64
  pub sub : F64 → F64 → F64
  pub mul : F64 → F64 → F64
  pub div : F64 → F64 → F64
  pub neg : F64 → F64
  pub powf : F64 → F64 → F64
  pub abs : F64 → F64
  pub sqrt : F64 → F64
  pub ceil : F64 → F64
  -- `f64::max`
  pub larger : F64 → F64 → F64
  -- A `usize` as a float, and the literals of integral value.
  pub of_nat : ℕ → F64
  -- `f64::fract`, `as u32` and `f64::from_bits`
  pub fract : F64 → F64
  pub to_u32 : F64 → ℕ
  pub from_bits : ℕ → F64
  -- `0.5`, `2.0_f64.powi(-32)` and `std::f64::consts::LOG2_E`
  pub half : F64
  pub tiny : F64
  pub log2_e : F64
  pub to_bits : F64 → ℕ
  -- The bit pattern of a float determines it.
  pub to_bits-injective : (a b : F64) → to_bits a ≡ to_bits b → a ≡ b
