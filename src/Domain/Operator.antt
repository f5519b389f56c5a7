-- ===== src/Domain/Operator.antt =====
-- crates/domain/src/operator.rs: the operator `2 ^ x - log2(y)` on floats.
use bml.Prelude.{◌||◌, if◌then◌else◌}
use bml.Float.{Float}

module _ (float : Float) where
  open float use {F64, zero, nan, neg_infinity, is_nan, lt, eq, exp2, log2, sub}

  unfoldable pub bml_base_op : F64 → F64 → F64
  bml_base_op x y =
      let log2_y = if eq y zero then neg_infinity else log2 y in
      let exp_x = if is_nan x then nan else exp2 x in
      if lt y zero || is_nan y then nan else sub exp_x log2_y
