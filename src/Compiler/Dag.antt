-- ===== src/Compiler/Dag.antt =====
-- `Dag` of crates/compiler/src/dag.rs: columns with a root.
use bml.Prelude.{ℕ, ◌<◌, ◌≡◌, Bool, Option, some, ◌==◌}
use bml.Float.{Float}
use bml.Domain.Ast.{NodeId, Node, EvalContext}
use bml.Domain.Soa.{NodeSoa, len, get}
use bml.Domain.Soa.Eval.{IsWellFormed, evaluate_soa, evaluate_soa_total}

module _ (float : Float) where
  open float use {F64}

  pub record Dag : Type 0 where
    pub soa : NodeSoa float
    pub root : NodeId

  abbrev pub len_dag : Dag → ℕ
  len_dag dag = len float dag.soa

  abbrev pub is_empty : Dag → Bool
  is_empty dag = len float dag.soa == 0

  abbrev pub get_node : Dag → NodeId → Option Node
  get_node dag id = get float dag.soa id

  -- The number of nodes is the fuel.
  unfoldable pub evaluate_dag : Dag → EvalContext float → Option F64
  evaluate_dag dag ctx = evaluate_soa float ctx (len float dag.soa) dag.soa dag.root

  -- The evaluation of a graph whose root is a node of well-formed columns returns a value.
  pub evaluate_dag_total :
      (dag : Dag) (ctx : EvalContext float)
      → IsWellFormed float dag.soa
      → dag.root < len float dag.soa
      → (v : F64) × (evaluate_dag dag ctx ≡ some v)
  unfolding evaluate_dag
  evaluate_dag_total dag ctx w h =
      evaluate_soa_total float ctx (len float dag.soa) dag.soa dag.root w h h
