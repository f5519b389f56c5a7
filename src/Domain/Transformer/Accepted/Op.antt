-- ===== src/Domain/Transformer/Accepted/Op.antt =====
-- The operations of crates/domain/src/transformer/bounded_ops.rs, on operands that they accept.
use bml.Prelude.{
  ℕ, suc, ◌+◌, ◌*◌, ◌^◌, ◌≤◌, ◌<◌, ◌≡◌, refl, sym, ap, ◌∙◌, Bool, true, false, List, arith, ==_refl,
  length,
}
use bml.Float.{Float}
use bml.Domain.Ast.{NodeId}
use bml.Domain.Soa.{NodeSoa, len}
use bml.Domain.Transformer.Ready.{Ready}
use bml.Domain.Transformer.Operations.{reject}
use bml.Domain.Transformer.Values.{bind-Makes}
use bml.Domain.Transformer.Values.Loops.{Aligned-length, Aligned-append}
use bml.Domain.Transformer.Values.Programs.{constants-Makes}
use bml.Domain.Transformer.Values.Op.{literals_read, operands_read, external_read, operation-Makes}
use bml.Domain.Transformer.Costs.{Costs-eq, bind-Costs}
use bml.Domain.Transformer.Costs.Programs.{constants-Costs}
use bml.Domain.Transformer.Costs.Op.{denominator_cost, operation_cost, operation-Costs}
use bml.Domain.Transformer.Bounded.{invalid_node}
use bml.Domain.Transformer.Bounded.OpConfig.{
  Kind, kind_product, kind_add, kind_dot_step, kind_rope, kind_swiglu, kind_softmax,
  BoundedOpConfig, input_count, external_count, output_count, is_wide, product_literals,
  swiglu_literals, fixed_literals,
}
use bml.Domain.Transformer.Bounded.OpPrograms.{operation_nodes, with_literals}
use bml.Domain.Transformer.Bounded.Op.{operation_bounded}
use bml.Domain.Transformer.Formula.Within.{operation_within}
use bml.Domain.Transformer.Accepted.Literals.{op_of, operation-operation_within}
use bml.Domain.Transformer.Outcome.{
  HoldAll, HoldAll-Begins, check_nodes-HoldAll, Outcome, execute-Outcome,
}
use bml.Domain.Transformer.Accepted.Rms.{checked_add-small, room-small}

module _ (float : Float) where
  open float use {F64}

  swiglu_literals-length :
      (config : BoundedOpConfig float) (wide : Bool)
      → is_wide float config ≡ wide
      → suc (suc (length (swiglu_literals float config))) ≡ literals_read kind_swiglu wide
  unfolding swiglu_literals product_literals literals_read
  swiglu_literals-length config true e = rw e refl
  swiglu_literals-length config false e = rw e refl

  -- The literals of a configuration are those that its nodes read.
  fixed_literals-length :
      (kind : Kind) (width : ℕ) (left right : F64)
      → length (fixed_literals float (op_of float kind width left right))
        ≡ literals_read kind (is_wide float (op_of float kind width left right))
  unfolding fixed_literals product_literals literals_read
  fixed_literals-length kind_product width left right = refl
  fixed_literals-length kind_add width left right = refl
  fixed_literals-length kind_dot_step width left right = refl
  fixed_literals-length kind_rope width left right = refl
  fixed_literals-length kind_swiglu width left right =
      swiglu_literals-length (op_of float kind_swiglu width left right) _ refl
  fixed_literals-length kind_softmax width left right = refl

  input_count-read :
      (kind : Kind) (width : ℕ) (left right : F64)
      → input_count float (op_of float kind width left right) ≡ operands_read kind width
  unfolding input_count operands_read
  input_count-read kind_product width left right = refl
  input_count-read kind_add width left right = refl
  input_count-read kind_dot_step width left right = refl
  input_count-read kind_rope width left right = refl
  input_count-read kind_swiglu width left right = refl
  input_count-read kind_softmax width left right = refl

  external_count-read :
      (kind : Kind) (width : ℕ) (left right : F64)
      → external_count float (op_of float kind width left right) ≡ external_read kind
  unfolding external_count external_read
  external_count-read kind_product width left right = refl
  external_count-read kind_add width left right = refl
  external_count-read kind_dot_step width left right = refl
  external_count-read kind_rope width left right = refl
  external_count-read kind_swiglu width left right = refl
  external_count-read kind_softmax width left right = refl

  literals_read-le : (kind : Kind) (wide : Bool) → literals_read kind wide ≤ 25
  unfolding literals_read
  literals_read-le kind_product wide = omega arith
  literals_read-le kind_add wide = omega arith
  literals_read-le kind_dot_step wide = omega arith
  literals_read-le kind_rope wide = omega arith
  literals_read-le kind_swiglu true = omega arith
  literals_read-le kind_swiglu false = omega arith
  literals_read-le kind_softmax wide = omega arith

  -- The nodes of an operation are within the room that is checked.
  operation_cost-le :
      (kind : Kind) (width : ℕ) (wide : Bool)
      → 25 + operation_cost kind width wide ≤ operands_read kind width * 4096 + 16384
  unfolding operation_cost operands_read denominator_cost
  operation_cost-le kind_product width wide = omega arith
  operation_cost-le kind_add width wide = omega arith
  operation_cost-le kind_dot_step width wide = omega arith
  operation_cost-le kind_rope width wide = omega arith
  operation_cost-le kind_swiglu width true = omega arith
  operation_cost-le kind_swiglu width false = omega arith
  operation_cost-le kind_softmax width wide = omega arith

  softmax_reads : (width : ℕ) → operands_read kind_softmax width ≡ width + 1
  unfolding operands_read
  softmax_reads width = refl

  -- The nodes of an operation with its literals.
  abbrev pub node_count : BoundedOpConfig float → ℕ
  node_count config =
      length (fixed_literals float config)
      + operation_cost config.kind config.width (is_wide float config)

  module _ (inputs : List F64) (soa : NodeSoa float) (config : BoundedOpConfig float)
      (r : Ready float soa) where
    -- An operation of a nonempty width accepts the operands and external values of its kind, when the columns have
    -- room and the allocator answers. Its outputs hold the values of the formula of its kind, whose constants are
    -- written from the two bounds of the configuration; it appends its literals and the nodes of its kind.
    pub operation_bounded-Outcome :
        (reserve : ℕ → Bool) {operands external : List NodeId} {xs es : List F64}
        → 0 < config.width
        → length xs ≡ input_count float config
        → length es ≡ external_count float config
        → len float soa + input_count float config * 4096 + 16384 < 2 ^ 32
        → reserve (output_count float config) ≡ true
        → HoldAll float inputs soa operands xs
        → HoldAll float inputs soa external es
        → Outcome float soa
            (operation_bounded float reserve soa operands external config)
            (node_count config)
            (λ end ids.
              HoldAll float inputs end ids
                (operation_within float config.kind config.width config.left config.right xs es))
    unfolding operation_bounded reject
    operation_bounded-Outcome reserve {operands} {external} {xs} {es} positive ex ee space free hx
          he =
        let eo = Aligned-length hx ∙ ex in
        let ev = Aligned-length he ∙ ee in
        let count = fixed_literals-length config.kind config.width config.left config.right in
        let read = input_count-read config.kind config.width config.left config.right in
        let read' = external_count-read config.kind config.width config.left config.right in
        let few = literals_read-le config.kind (is_wide float config) in
        let cheap = operation_cost-le config.kind config.width (is_wide float config) in
        let lits = fixed_literals float config in
        execute-Outcome float inputs soa _
          {m = with_literals lits
            (operation_nodes config.kind config.width (is_wide float config) operands external)}
          {p = length lits} _
          (rw
            (
              eo,
              ev,
              ==_refl (input_count float config),
              ==_refl (external_count float config),
              check_nodes-HoldAll float invalid_node inputs soa (Aligned-append hx he),
              room-small float soa (input_count float config) space,
              checked_add-small float (length soa.const_pool) (length lits)
                  (omega (arith, r.pool_fits, count, few, space)),
              free,
            )
            refl)
          r
          (unfold with_literals in
            Costs-eq refl (omega arith) (
              bind-Costs (length lits)
                (operation_cost config.kind config.width (is_wide float config)) (length lits) 0
                (constants-Costs lits)
                λ c.
                  operation-Costs config.kind config.width (is_wide float config) operands external
                    c positive
                    (λ e.
                      eo
                      ∙ read
                      ∙ ap (λ k. operands_read k config.width) e
                      ∙ softmax_reads config.width)))
          (omega (arith, count, few, cheap, read, space))
          λ end small pool b.
            rw
              (sym (
                operation-operation_within float config.kind config.width config.left config.right
                  xs es))
              (unfold with_literals in
                bind-Makes float inputs end (constants-Makes float inputs end small pool lits)
                  λ c hc.
                    operation-Makes float inputs end small hc config.kind config.width
                      (is_wide float config) (omega (arith, Aligned-length hc, count)) positive
                      (eo ∙ read) (ev ∙ read') (HoldAll-Begins float inputs r b hx)
                      (HoldAll-Begins float inputs r b he))
