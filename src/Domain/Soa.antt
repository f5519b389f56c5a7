-- ===== src/Domain/Soa.antt =====
-- crates/domain/src/soa.rs: the nodes as one column for each field.
pub mod Eval
pub mod Push
pub mod Agree
use bml.Prelude.{ℕ, ◌%◌, ◌^◌, Option, none, some, List, [], ◌∷◌, ◌++◌, length, get_elem?}
use bml.Float.{Float}
use bml.Domain.Ast.{NodeId, NodeKind, Node, one_node, zero_node, var_node, const_node, bml_node}

-- `as u32`
abbrev pub as_u32 : ℕ → ℕ
as_u32 n = n % 2 ^ 32

-- `Option::unwrap_or(0)`
abbrev pub or_zero : Option ℕ → ℕ
or_zero none = 0
or_zero (some n) = n

-- The node that `NodeSoA::get` builds from the columns at an index; `none` is a panic.
unfoldable pub node_at : NodeId → Option NodeKind → Option NodeId → Option NodeId → Option Node
node_at id none left right = none
node_at id (some NodeKind.one) left right = some (one_node id)
node_at id (some NodeKind.zero) left right = some (zero_node id)
node_at id (some (NodeKind.var v)) left right = some (var_node id v)
node_at id (some (NodeKind.const c)) left right = some (const_node id c)
node_at id (some NodeKind.bml_op) (some l) (some r) = some (bml_node id l r)
node_at id (some NodeKind.bml_op) none right = none
node_at id (some NodeKind.bml_op) (some l) none = none

module _ (float : Float) where
  open float use {F64}

  pub record NodeSoa : Type 0 where
    pub const_pool : List F64
    pub kinds : List NodeKind
    pub lefts : List NodeId
    pub rights : List NodeId
    pub values : List F64

  abbrev pub new : NodeSoa
  new = record { const_pool = []; kinds = []; lefts = []; rights = []; values = [] }

  abbrev pub len : NodeSoa → ℕ
  len soa = length soa.kinds

  unfoldable pub push : NodeSoa → Node → NodeSoa
  push soa node = record soa {
    kinds = soa.kinds ++ node.kind ∷ [];
    lefts = soa.lefts ++ or_zero node.left ∷ [];
    rights = soa.rights ++ or_zero node.right ∷ [];
    values = soa.values ++ float.zero ∷ [];
  }

  -- A push returns the identifier of the new node.
  unfoldable pub push_one : NodeSoa → NodeId × NodeSoa
  push_one soa = let id = as_u32 (len soa) in (id, push soa (one_node id))

  unfoldable pub push_zero : NodeSoa → NodeId × NodeSoa
  push_zero soa = let id = as_u32 (len soa) in (id, push soa (zero_node id))

  unfoldable pub push_var : NodeSoa → ℕ → NodeId × NodeSoa
  push_var soa var_id = let id = as_u32 (len soa) in (id, push soa (var_node id var_id))

  unfoldable pub push_const : NodeSoa → ℕ → NodeId × NodeSoa
  push_const soa const_id = let id = as_u32 (len soa) in (id, push soa (const_node id const_id))

  unfoldable pub push_bml : NodeSoa → NodeId → NodeId → NodeId × NodeSoa
  push_bml soa left right = let id = as_u32 (len soa) in (id, push soa (bml_node id left right))

  unfoldable pub get : NodeSoa → NodeId → Option Node
  get soa id =
      node_at id (get_elem? soa.kinds id) (get_elem? soa.lefts id) (get_elem? soa.rights id)
