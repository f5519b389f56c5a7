-- ===== src/Domain/Soa/Agree.antt =====
-- `evaluate_soa` of crates/compiler/src/dag.rs beside `evaluate` of crates/domain/src/ast.rs.
use bml.Prelude.{
  ℕ, zero, suc, ◌≡◌, refl, sym, ap, ◌∙◌, Option, none, some, List, [], ◌∷◌, ◌++◌, map, append_assoc,
  append-nil, inl, inr, Option-cases, get_elem?,
}
use bml.Float.{Float}
use bml.Domain.Ast.{NodeId, NodeKind, Node, EvalContext}
use bml.Domain.Ast.Evaluate.{evaluate, evaluate_node}
use bml.Domain.Soa.{NodeSoa, new, push, or_zero}
use bml.Domain.Soa.Eval.{evaluate_soa, eval_node}

get_elem?-map-some {ℓ κ} :
    {A : Type ℓ} {B : Type κ} (f : A → B) (xs : List A) (i : ℕ) {a : A}
    → get_elem? xs i ≡ some a
    → get_elem? (map f xs) i ≡ some (f a)
get_elem?-map-some f [] i h = cc
get_elem?-map-some f (x ∷ xs) zero h = cc
get_elem?-map-some f (x ∷ xs) (suc i) h = get_elem?-map-some f xs i h

get_elem?-map-none {ℓ κ} :
    {A : Type ℓ} {B : Type κ} (f : A → B) (xs : List A) (i : ℕ)
    → get_elem? xs i ≡ none
    → get_elem? (map f xs) i ≡ none
get_elem?-map-none f [] i h = refl
get_elem?-map-none f (x ∷ xs) zero h = cc
get_elem?-map-none f (x ∷ xs) (suc i) h = get_elem?-map-none f xs i h

module _ (float : Float) where
  open float use {F64}

  -- Nodes pushed one after the other.
  unfoldable pub push_all : NodeSoa float → List Node → NodeSoa float
  push_all soa [] = soa
  push_all soa (node ∷ nodes) = push_all (push float soa node) nodes

  push_all-kinds :
      (soa : NodeSoa float) (nodes : List Node)
      → (push_all soa nodes).kinds ≡ soa.kinds ++ map (λ (n : Node). n.kind) nodes
  unfolding push_all push
  push_all-kinds soa [] = sym (append-nil soa.kinds)
  push_all-kinds soa (node ∷ nodes) =
      push_all-kinds (push float soa node) nodes
      ∙ append_assoc soa.kinds (node.kind ∷ []) (map (λ (n : Node). n.kind) nodes)

  push_all-lefts :
      (soa : NodeSoa float) (nodes : List Node)
      → (push_all soa nodes).lefts ≡ soa.lefts ++ map (λ (n : Node). or_zero n.left) nodes
  unfolding push_all push
  push_all-lefts soa [] = sym (append-nil soa.lefts)
  push_all-lefts soa (node ∷ nodes) =
      push_all-lefts (push float soa node) nodes
      ∙ append_assoc soa.lefts (or_zero node.left ∷ []) (map (λ (n : Node). or_zero n.left) nodes)

  push_all-rights :
      (soa : NodeSoa float) (nodes : List Node)
      → (push_all soa nodes).rights ≡ soa.rights ++ map (λ (n : Node). or_zero n.right) nodes
  unfolding push_all push
  push_all-rights soa [] = sym (append-nil soa.rights)
  push_all-rights soa (node ∷ nodes) =
      push_all-rights (push float soa node) nodes
      ∙ append_assoc soa.rights (or_zero node.right ∷ [])
          (map (λ (n : Node). or_zero n.right) nodes)

  -- Every operator has its operands, as `Node::bml` builds it.
  abbrev pub HasOperands : List Node → Type 0
  HasOperands nodes =
      (i : ℕ) (node : Node)
      → get_elem? nodes i ≡ some node
      → node.kind ≡ NodeKind.bml_op
      → (l : NodeId) × (r : NodeId) × (node.left ≡ some l) × (node.right ≡ some r)

  module _ (ctx : EvalContext float) (nodes : List Node) (w : HasOperands nodes) where
    abbrev columns : NodeSoa float
    columns = push_all (new float) nodes

    row :
        (rec : NodeId → Option F64) (id : NodeId) (k : NodeKind) (left right : Option NodeId)
        → (k ≡ NodeKind.bml_op → (l : NodeId) × (r : NodeId) × (left ≡ some l) × (right ≡ some r))
        → eval_node float ctx rec (some k) (some (or_zero left)) (some (or_zero right))
          ≡ evaluate_node float rec ctx
              (some (record { id = id; kind = k; left = left; right = right }))
    unfolding eval_node evaluate_node
    row rec id NodeKind.one left right h = refl
    row rec id NodeKind.zero left right h = refl
    row rec id (NodeKind.var v) left right h = refl
    row rec id (NodeKind.const c) left right h = refl
    row rec id NodeKind.bml_op left right h = let (l, r, el, er) = h refl in rw (el, er) refl

    step :
        (rec : NodeId → Option F64) (id : NodeId)
        → eval_node float ctx rec
            (get_elem? columns.kinds id)
            (get_elem? columns.lefts id)
            (get_elem? columns.rights id)
          ≡ evaluate_node float rec ctx (get_elem? nodes id)
    unfolding evaluate_node eval_node
    step rec id = elim (Option-cases (get_elem? nodes id)) [
      | inl e ↦
          let k : get_elem? columns.kinds id ≡ none =
            ap (λ xs. get_elem? xs id) (push_all-kinds (new float) nodes)
            ∙ get_elem?-map-none (λ (n : Node). n.kind) nodes id e in
          rw (k, e) refl
      | inr (node, e) ↦
          let k : get_elem? columns.kinds id ≡ some node.kind =
            ap (λ xs. get_elem? xs id) (push_all-kinds (new float) nodes)
            ∙ get_elem?-map-some (λ (n : Node). n.kind) nodes id e in
          let l : get_elem? columns.lefts id ≡ some (or_zero node.left) =
            ap (λ xs. get_elem? xs id) (push_all-lefts (new float) nodes)
            ∙ get_elem?-map-some (λ (n : Node). or_zero n.left) nodes id e in
          let r : get_elem? columns.rights id ≡ some (or_zero node.right) =
            ap (λ xs. get_elem? xs id) (push_all-rights (new float) nodes)
            ∙ get_elem?-map-some (λ (n : Node). or_zero n.right) nodes id e in
          rw (k, l, r, e) (row rec node.id node.kind node.left node.right (w id node e))
    ]

  -- On the columns of a list of nodes whose operators have operands, `evaluate_soa` computes for every
  -- node what `evaluate` computes on the list, a panic included, to every depth of recursion.
  pub evaluate_soa-evaluate :
      (ctx : EvalContext float) (nodes : List Node) (fuel : ℕ) (id : NodeId)
      → HasOperands nodes
      → evaluate_soa float ctx fuel (push_all (new float) nodes) id
        ≡ evaluate float fuel nodes id ctx
  unfolding evaluate_soa evaluate
  evaluate_soa-evaluate ctx nodes zero id w = refl
  evaluate_soa-evaluate ctx nodes (suc fuel) id w =
      step ctx nodes w (evaluate_soa float ctx fuel (push_all (new float) nodes)) id
      ∙ ap (λ rec. evaluate_node float rec ctx (get_elem? nodes id))
          (λ i k. evaluate_soa-evaluate ctx nodes fuel k w i)
