-- ===== src/Domain/Ast/Evaluate.antt =====
-- The reference evaluator of crates/domain/src/ast.rs. An index out of range, which panics in the
-- source, is `none`.
use bml.Prelude.{ℕ, zero, suc, Option, none, some, List, get_elem?}
use bml.Float.{Float}
use bml.Domain.Ast.{NodeId, NodeKind, Node, EvalContext, get_var, get_const, both, bind}
use bml.Domain.Operator.{bml_base_op}

module _ (float : Float) where
  open float use {F64}

  -- One node, with the values of its operands; `none` is a panic, of a node or an operand missing.
  unfoldable pub evaluate_node :
      (NodeId → Option F64) → EvalContext float → Option Node → Option F64
  evaluate_node rec ctx none = none
  evaluate_node rec ctx (some node) = by_kind node.kind
    where
      by_kind : NodeKind → Option F64
      by_kind NodeKind.one = some float.one
      by_kind NodeKind.zero = some float.zero
      by_kind (NodeKind.var v) = some (get_var float ctx v)
      by_kind (NodeKind.const c) = some (get_const float ctx c)
      by_kind NodeKind.bml_op = both (bml_base_op float) (bind node.left rec) (bind node.right rec)

  -- The reference evaluator; the fuel bounds the depth of the recursion.
  unfoldable pub evaluate : ℕ → List Node → NodeId → EvalContext float → Option F64
  evaluate zero nodes root ctx = none
  evaluate (suc fuel) nodes root ctx =
      evaluate_node (λ id. evaluate fuel nodes id ctx) ctx (get_elem? nodes root)
