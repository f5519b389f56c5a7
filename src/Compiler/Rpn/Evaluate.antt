-- ===== src/Compiler/Rpn/Evaluate.antt =====
-- crates/compiler/src/rpn.rs: `evaluate_with_ctx` and `evaluate_indexed_ops`. A panic is `none`.
use bml.Prelude.{
  ℕ, zero, suc, ◌+◌, ◌-◌, Option, none, some, List, [], ◌∷◌, ltb, leb, if◌then◌else◌, length,
  get_elem?, get_or, take,
}
use bml.Float.{Float}
use bml.Domain.Ast.{EvalContext, get_var, get_const}
use bml.Domain.Operator.{bml_base_op}
use bml.Compiler.Rpn.{
  RpnOp, one, bml_op, dup, var, const, var_indexed, context_var_indexed, context_const_indexed,
  store_result, loop, f_add, f_mul, pick, drop_top, swap, f_max, RpnProgram, finite_max,
  context_index, uses_counter_loops,
}

module _ (float : Float) (ctx : EvalContext float) where
  open float use {F64}

  -- `stack.pop()` with a default, and what is below.
  abbrev pop_or : F64 → List F64 → F64 × List F64
  pop_or default [] = (default, [])
  pop_or default (x ∷ stack) = (x, stack)

  -- `map_or(f64::NAN, ..)` of the index.
  unfoldable pub load_at : (ℕ → F64) → Option ℕ → F64
  load_at load none = float.nan
  load_at load (some id) = load id

  unfoldable pub binary : F64 → (F64 → F64 → F64) → List F64 → List F64
  binary default f stack =
      let (right, rest) = pop_or default stack in
      let (left, below) = pop_or default rest in f left right ∷ below

  unfoldable pub indexed : (ℕ → F64) → ℕ → List F64 → List F64
  indexed load base stack =
      let (offset, rest) = pop_or float.nan stack in
      load_at load (context_index float base offset) ∷ rest

  unfoldable pub picked : ℕ → List F64 → List F64
  picked depth stack =
      let index = length stack - (1 + depth) in
      get_or stack (length stack - 1 - index) float.zero ∷ stack

  -- An operation that is not a loop.
  unfoldable pub plain_op : RpnOp → List F64 → Option (List F64)
  plain_op one stack = some (float.one ∷ stack)
  plain_op RpnOp.zero stack = some (float.zero ∷ stack)
  plain_op (var id) stack = some (get_var float ctx id ∷ stack)
  plain_op (const id) stack = some (get_const float ctx id ∷ stack)
  plain_op (context_var_indexed base) stack = some (indexed (get_var float ctx) base stack)
  plain_op (context_const_indexed base) stack = some (indexed (get_const float ctx) base stack)
  plain_op (var_indexed base) stack = some (float.nan ∷ (pop_or float.zero stack).1)
  plain_op (store_result slot) stack = some (pop_or float.zero (pop_or float.zero stack).1).1
  plain_op bml_op (b ∷ a ∷ stack) = some (bml_base_op float a b ∷ stack)
  plain_op bml_op (b ∷ []) = none
  plain_op bml_op [] = none
  plain_op dup (v ∷ stack) = some (v ∷ v ∷ stack)
  plain_op dup [] = none
  plain_op f_add stack = some (binary float.zero float.add stack)
  plain_op f_mul stack = some (binary float.zero float.mul stack)
  plain_op f_max stack = some (binary float.nan (finite_max float) stack)
  plain_op (pick depth) stack = some (picked depth stack)
  plain_op drop_top stack = some (pop_or float.zero stack).1
  plain_op swap (a ∷ b ∷ stack) = some (b ∷ a ∷ stack)
  plain_op swap (a ∷ []) = some (a ∷ [])
  plain_op swap [] = some []
  plain_op (loop count body_len) stack = none

  unfoldable pub repeat : ℕ → (List F64 → Option (List F64)) → List F64 → Option (List F64)
  repeat zero body stack = some stack
  repeat (suc count) body stack = elim (body stack) [
    | none ↦ none
    | some stack' ↦ repeat count body stack'
  ]

  -- The operations from a position up to `todo` further ones, of which the first `skip` were a body; `run_loop` runs a
  -- loop whose body begins the list that it is given.
  unfoldable pub run_ops :
      (ℕ → ℕ → List RpnOp → List F64 → Option (List F64))
      → ℕ
      → ℕ
      → List RpnOp
      → List F64
      → Option (List F64)
  run_ops run_loop zero skip ops stack = some stack
  run_ops run_loop (suc todo) skip [] stack = if leb (suc todo) skip then some stack else none
  run_ops run_loop (suc todo) (suc skip) (op ∷ ops) stack = run_ops run_loop todo skip ops stack
  run_ops run_loop (suc todo) zero (loop count body_len ∷ ops) stack =
      elim (run_loop count body_len ops stack) [
        | none ↦ none
        | some stack' ↦ run_ops run_loop todo body_len ops stack'
      ]
  run_ops run_loop (suc todo) zero (op ∷ ops) stack = elim (plain_op op stack) [
    | none ↦ none
    | some stack' ↦ run_ops run_loop todo zero ops stack'
  ]

  -- A loop at a number of further levels of nesting; a panic at the third level.
  unfoldable pub run_loop : ℕ → ℕ → ℕ → List RpnOp → List F64 → Option (List F64)
  run_loop zero count body_len ops stack = none
  run_loop (suc levels) count body_len ops stack =
      repeat count (run_ops (run_loop levels) body_len zero ops) stack

  abbrev pushed : List F64 → Option F64 → Option (List F64)
  pushed stack none = none
  pushed stack (some v) = some (v ∷ stack)

  -- One operation of `evaluate_indexed_ops`; an error is `none`.
  unfoldable pub checked_op : RpnOp → List F64 → Option (List F64)
  checked_op one stack = some (float.one ∷ stack)
  checked_op RpnOp.zero stack = some (float.zero ∷ stack)
  checked_op (var id) stack = some (get_var float ctx id ∷ stack)
  checked_op (const id) stack = some (get_const float ctx id ∷ stack)
  checked_op (context_var_indexed base) (offset ∷ stack) =
      some (load_at (get_var float ctx) (context_index float base offset) ∷ stack)
  checked_op (context_const_indexed base) (offset ∷ stack) =
      some (load_at (get_const float ctx) (context_index float base offset) ∷ stack)
  checked_op bml_op (right ∷ left ∷ stack) = some (bml_base_op float left right ∷ stack)
  checked_op f_add (right ∷ left ∷ stack) = some (float.add left right ∷ stack)
  checked_op f_mul (right ∷ left ∷ stack) = some (float.mul left right ∷ stack)
  checked_op f_max (right ∷ left ∷ stack) = some (finite_max float left right ∷ stack)
  checked_op dup (v ∷ stack) = some (v ∷ v ∷ stack)
  checked_op (pick depth) stack = pushed stack (get_elem? stack depth)
  checked_op drop_top (v ∷ stack) = some stack
  checked_op swap (a ∷ b ∷ stack) = some (b ∷ a ∷ stack)
  checked_op (var_indexed base) (offset ∷ stack) = some (float.nan ∷ stack)
  checked_op (store_result slot) (offset ∷ v ∷ stack) = some stack
  checked_op other stack = none

  -- The iterations of a body from an index, which is pushed.
  unfoldable pub counted : ℕ → ℕ → (List F64 → Option (List F64)) → List F64 → Option (List F64)
  counted index zero body stack = some stack
  counted index (suc count) body stack = elim (body (float.of_nat index ∷ stack)) [
    | none ↦ none
    | some stack' ↦ counted (suc index) count body stack'
  ]

  unfoldable pub indexed_ops :
      (ℕ → ℕ → List RpnOp → List F64 → Option (List F64))
      → ℕ
      → List RpnOp
      → List F64
      → Option (List F64)
  indexed_ops run_body skip [] stack = some stack
  indexed_ops run_body (suc skip) (op ∷ ops) stack = indexed_ops run_body skip ops stack
  indexed_ops run_body zero (loop count body_len ∷ ops) stack =
      elim (run_body count body_len ops stack) [
        | none ↦ none
        | some stack' ↦ indexed_ops run_body body_len ops stack'
      ]
  indexed_ops run_body zero (op ∷ ops) stack = elim (checked_op op stack) [
    | none ↦ none
    | some stack' ↦ indexed_ops run_body zero ops stack'
  ]

  -- The body must be in the list, and the nesting within two levels.
  unfoldable pub indexed_loop : ℕ → ℕ → ℕ → List RpnOp → List F64 → Option (List F64)
  indexed_loop zero count body_len ops stack = none
  indexed_loop (suc levels) count body_len ops stack =
      if ltb (length ops) body_len
      then none
      else counted 0 count (indexed_ops (indexed_loop levels) zero (take body_len ops)) stack

  unfoldable pub evaluate_indexed_ops : List RpnOp → List F64 → Option (List F64)
  evaluate_indexed_ops ops stack = indexed_ops (indexed_loop 2) zero ops stack

  -- `stack.pop().unwrap_or(f64::NAN)`
  unfoldable pub top : List F64 → F64
  top [] = float.nan
  top (v ∷ stack) = v

  -- A failed indexed evaluation is NaN, a panic of the other is `none`.
  unfoldable pub evaluate_with_ctx : RpnProgram float → Option F64
  evaluate_with_ctx program =
      if uses_counter_loops program.ops
      then some
          (elim (evaluate_indexed_ops program.ops []) [ none ↦ float.nan | some stack ↦ top stack ])
      else elim (run_ops (run_loop 2) (length program.ops) zero program.ops []) [
        | none ↦ none
        | some stack ↦ some (top stack)
      ]

module _ (float : Float) where
  unfoldable pub evaluate : RpnProgram float → Option (float.F64)
  evaluate program =
      evaluate_with_ctx float (record { inputs = []; weights = program.const_pool }) program
