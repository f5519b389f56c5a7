-- ===== src/Compiler/Rpn.antt =====
-- crates/compiler/src/rpn.rs: linear code. The top of a stack is the head of its list.
pub mod Evaluate
pub mod Linearize
pub mod Straight
use bml.Prelude.{
  ℕ, suc, ◌+◌, ◌-◌, ◌*◌, ◌/◌, ◌%◌, ◌^◌, ◌≤◌, ◌<◌, min, max, ◌≡◌, ◌≢◌, refl, sym, ap, ap₂, ◌∙◌,
  subst, Bool, true, false, not, ◌&&◌, ◌||◌, cond, Option, none, some, List, [], ◌∷◌, ◌++◌, map,
  append_assoc, append-nil, ◌⊎◌, inl, inr, ◌↔◌, arith, tests, ltb, leb, ltb→lt, lt→ltb, ltb→le,
  ltb-eq-false, leb→le, ◌==◌, ==_iff, ==_refl, if◌then◌else◌, Bool-cases, Option-cases, length,
  get_elem?, get_or, set, take, drop, replicate, length-append, length-set, length-replicate,
  get_or-set_self, get_or-set_ne, get_or-replicate, get_or_of_ge, length-drop, drop-length_append,
  take-length_append, get_elem?-append_left, get_elem?-append_end, length-map, Result, ok, err,
  ok_or, map_err, ◌>>=◌, ◌>>◌, Result-cases, >>-eq-ok,
}
use bml.Float.{Float}
use bml.Number.Words.{bit_and}

pub data RpnOp : Type 0 where
  one : RpnOp
  zero : RpnOp
  bml_op : RpnOp
  dup : RpnOp
  var : ℕ → RpnOp
  const : ℕ → RpnOp
  var_indexed : ℕ → RpnOp
  context_var_indexed : ℕ → RpnOp
  context_const_indexed : ℕ → RpnOp
  store_result : ℕ → RpnOp
  -- `count` and `body_len`
  loop : ℕ → ℕ → RpnOp
  f_add : RpnOp
  f_mul : RpnOp
  pick : ℕ → RpnOp
  drop_top : RpnOp
  swap : RpnOp
  f_max : RpnOp

-- `ops.iter().any(..)`
unfoldable pub is_counted : RpnOp → Bool
is_counted (context_var_indexed base) = true
is_counted (context_const_indexed base) = true
is_counted f_max = true
is_counted other = false

unfoldable pub uses_counter_loops : List RpnOp → Bool
uses_counter_loops [] = false
uses_counter_loops (op ∷ ops) = is_counted op || uses_counter_loops ops

module _ (float : Float) where
  open float use {F64}

  unfoldable pub finite_max : F64 → F64 → F64
  finite_max left right =
      if not (float.is_finite left) || not (float.is_finite right)
      then float.nan
      else if float.eq left float.zero && float.eq right float.zero
      then float.from_bits (bit_and 64 (float.to_bits left) (float.to_bits right))
      else float.larger left right

  unfoldable pub context_index : ℕ → F64 → Option ℕ
  context_index base offset =
      if not (float.is_finite offset)
        || float.lt offset float.zero
        || not (float.eq (float.fract offset) float.zero)
        || float.lt (float.of_nat (2 ^ 32 - 1)) offset
      then none
      else (if ltb (base + float.to_u32 offset) (2 ^ 32)
          then some (base + float.to_u32 offset)
          else none)

  pub record RpnProgram : Type 0 where
    pub const_pool : List F64
    pub ops : List RpnOp
