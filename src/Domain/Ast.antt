-- ===== src/Domain/Ast.antt =====
-- crates/domain/src/ast.rs: nodes and the evaluation context.
pub mod Evaluate
use bml.Prelude.{Bool, true, false, ℕ, Option, none, some, List, get_or}
use bml.Float.{Float}

-- `NodeId`, `VarId` and `ConstId` are `u32`.
abbrev pub NodeId : Type 0
NodeId = ℕ

pub data NodeKind : Type 0 where
  one : NodeKind
  zero : NodeKind
  var : ℕ → NodeKind
  const : ℕ → NodeKind
  bml_op : NodeKind

pub record Node : Type 0 where
  pub id : NodeId
  pub kind : NodeKind
  pub left : Option NodeId
  pub right : Option NodeId

-- A node without operands.
abbrev pub leaf_node : NodeId → NodeKind → Node
leaf_node id kind = record { id = id; kind = kind; left = none; right = none }

-- `Node::one`, `Node::zero`, `Node::var`, `Node::const_` and `Node::bml`.
abbrev pub one_node : NodeId → Node
one_node id = leaf_node id NodeKind.one

abbrev pub zero_node : NodeId → Node
zero_node id = leaf_node id NodeKind.zero

abbrev pub var_node : NodeId → ℕ → Node
var_node id var_id = leaf_node id (NodeKind.var var_id)

abbrev pub const_node : NodeId → ℕ → Node
const_node id const_id = leaf_node id (NodeKind.const const_id)

abbrev pub bml_node : NodeId → NodeId → NodeId → Node
bml_node id left right = record {
  id = id;
  kind = NodeKind.bml_op;
  left = some left;
  right = some right;
}

-- `Node::is_one`, `is_var`, `is_const` and `is_bml`, on the kind.
abbrev pub is_one : NodeKind → Bool
is_one NodeKind.one = true
is_one NodeKind.zero = false
is_one (NodeKind.var v) = false
is_one (NodeKind.const c) = false
is_one NodeKind.bml_op = false

abbrev pub is_var : NodeKind → Bool
is_var NodeKind.one = false
is_var NodeKind.zero = false
is_var (NodeKind.var v) = true
is_var (NodeKind.const c) = false
is_var NodeKind.bml_op = false

abbrev pub is_const : NodeKind → Bool
is_const NodeKind.one = false
is_const NodeKind.zero = false
is_const (NodeKind.var v) = false
is_const (NodeKind.const c) = true
is_const NodeKind.bml_op = false

abbrev pub is_bml : NodeKind → Bool
is_bml NodeKind.one = false
is_bml NodeKind.zero = false
is_bml (NodeKind.var v) = false
is_bml (NodeKind.const c) = false
is_bml NodeKind.bml_op = true

-- A function of two results, each of which may have panicked.
abbrev pub both {ℓ} : {A : Type ℓ} → (A → A → A) → Option A → Option A → Option A
both f none y = none
both f (some a) none = none
both f (some a) (some b) = some (f a b)

abbrev pub bind {ℓ κ} : {A : Type ℓ} {B : Type κ} → Option A → (A → Option B) → Option B
bind none f = none
bind (some a) f = f a

module _ (float : Float) where
  open float use {F64, nan}

  pub record EvalContext : Type 0 where
    pub inputs : List F64
    pub weights : List F64

  -- Out of range the value is NaN.
  unfoldable pub get_var : EvalContext → ℕ → F64
  get_var ctx id = get_or ctx.inputs id nan

  unfoldable pub get_const : EvalContext → ℕ → F64
  get_const ctx id = get_or ctx.weights id nan
