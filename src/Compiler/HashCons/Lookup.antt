-- ===== src/Compiler/HashCons/Lookup.antt =====
-- Reading nodes back in crates/compiler/src/hash_cons.rs: `get`, the search of `const_value`, and
-- the values of nodes.
use bml.Prelude.{
  ℕ, zero, suc, ◌+◌, ◌^◌, ◌≤◌, ◌<◌, ◌≡◌, refl, sym, ap, ◌∙◌, Option, none, some, ◌⊎◌, inl, inr,
  arith, ◌==◌, ==_iff, Bool-cases, Option-cases, get_elem?,
}
use bml.Float.{Float}
use bml.Domain.Ast.{leaf_node, bml_node as bml_at, NodeId, NodeKind, Node, EvalContext, get_const}
use bml.Domain.Soa.{node_at, NodeSoa, len, as_u32, get}
use bml.Domain.Soa.Eval.{get_elem?-some, IsWellFormed, evaluate_soa, eval_node}
use bml.Compiler.HashCons.{bml_key, find_const, if_const}
use bml.Compiler.HashCons.Valid.{HasKey}
use bml.Compiler.HashCons.Keys.{some_eq}
use bml.Domain.Operator.{bml_base_op}

node_at_kind :
    (id : NodeId) (k : Option NodeKind) (l r : Option NodeId) {node : Node}
    → node_at id k l r ≡ some node
    → k ≡ some node.kind
unfolding node_at
node_at_kind id none l r h = cc
node_at_kind id (some NodeKind.one) l r h = ap some (ap (λ (n : Node). n.kind) (some_eq h))
node_at_kind id (some NodeKind.zero) l r h = ap some (ap (λ (n : Node). n.kind) (some_eq h))
node_at_kind id (some (NodeKind.var v)) l r h = ap some (ap (λ (n : Node). n.kind) (some_eq h))
node_at_kind id (some (NodeKind.const c)) l r h = ap some (ap (λ (n : Node). n.kind) (some_eq h))
node_at_kind id (some NodeKind.bml_op) none r h = cc
node_at_kind id (some NodeKind.bml_op) (some l) none h = cc
node_at_kind id (some NodeKind.bml_op) (some l) (some r) h =
    ap some (ap (λ (n : Node). n.kind) (some_eq h))

module _ (float : Float) (soa : NodeSoa float) where
  open float use {F64}

  pub get-kind :
      (id : NodeId) {node : Node}
      → get float soa id ≡ some node
      → get_elem? soa.kinds id ≡ some node.kind
  unfolding get
  get-kind id h = node_at_kind id (get_elem? soa.kinds id) _ _ h

  -- Reading a node of well-formed columns does not panic.
  pub get_total :
      (id : NodeId)
      → IsWellFormed float soa
      → id < len float soa
      → (node : Node) × (get float soa id ≡ some node)
  unfolding get node_at
  get_total id w h = go (get_elem?-some soa.kinds id h)
    where
      go :
          (k : NodeKind) × (get_elem? soa.kinds id ≡ some k)
          → (node : Node) × (get float soa id ≡ some node)
      go (NodeKind.one, e) = (leaf_node id NodeKind.one, rw e)
      go (NodeKind.zero, e) = (leaf_node id NodeKind.zero, rw e)
      go (NodeKind.var x, e) = (leaf_node id (NodeKind.var x), rw e)
      go (NodeKind.const x, e) = (leaf_node id (NodeKind.const x), rw e)
      go (NodeKind.bml_op, e) =
          let (l, r, el, er, _, _) = w.operands id e in (bml_at id l r, rw (e, el, er))

  pub if_const-found :
      (c : ℕ) (k : NodeKind) (hit rest : Option (Option NodeId)) (id : NodeId)
      → if_const c k hit rest ≡ some (some id)
      → ((k ≡ NodeKind.const c) × (hit ≡ some (some id))) ⊎ (rest ≡ some (some id))
  unfolding if_const
  if_const-found c NodeKind.one hit rest id h = inr h
  if_const-found c NodeKind.zero hit rest id h = inr h
  if_const-found c (NodeKind.var x) hit rest id h = inr h
  if_const-found c NodeKind.bml_op hit rest id h = inr h
  if_const-found c (NodeKind.const x) hit rest id h = elim (Bool-cases (x == c)) [
    | inl e ↦ inl (ap NodeKind.const ((==_iff x c).0 e), rw e at h)
    | inr e ↦ inr (rw e at h)
  ]

  -- The search returns a node that loads the constant.
  pub find_const_sound :
      (c n i : ℕ) (id : NodeId)
      → find_const float soa c n i ≡ some (some id)
      → get_elem? soa.kinds id ≡ some (NodeKind.const c)
  unfolding find_const
  find_const_sound c zero i id h = cc
  find_const_sound c (suc n) i id h = elim (Option-cases (get float soa (as_u32 i))) [
    | inl e ↦ let q = rw e at h in cc
    | inr (node, e) ↦
        let q = rw e at h in
        elim (if_const-found c node.kind (some (some (as_u32 i))) (find_const float soa c n (i + 1))
          id q) [
            | inl (k, s) ↦
                ap (get_elem? soa.kinds) (sym (some_eq (some_eq s)))
                ∙ get-kind (as_u32 i) e
                ∙ ap some k
            | inr r ↦ find_const_sound c n (i + 1) id r
          ]
  ]

  if_const-total :
      (c : ℕ) (k : NodeKind) (id : NodeId) (rest : Option (Option NodeId))
      → (o : Option NodeId) × (rest ≡ some o)
      → (o : Option NodeId) × (if_const c k (some (some id)) rest ≡ some o)
  unfolding if_const
  if_const-total c NodeKind.one id rest h = h
  if_const-total c NodeKind.zero id rest h = h
  if_const-total c (NodeKind.var x) id rest h = h
  if_const-total c NodeKind.bml_op id rest h = h
  if_const-total c (NodeKind.const x) id rest h = elim (Bool-cases (x == c)) [
    | inl e ↦ rw e (some id, refl)
    | inr e ↦ rw e h
  ]

  -- The search over the nodes does not panic.
  pub find_const_total :
      (c n i : ℕ)
      → IsWellFormed float soa
      → i + n ≤ len float soa
      → len float soa ≤ 2 ^ 32
      → (o : Option NodeId) × (find_const float soa c n i ≡ some o)
  unfolding find_const
  find_const_total c zero i w h s = (none, refl)
  find_const_total c (suc n) i w h s =
      let (node, e) = get_total (as_u32 i) w (omega arith) in
      rw e (
        if_const-total c node.kind (as_u32 i) (find_const float soa c n (i + 1))
          (find_const_total c n (i + 1) w (omega arith) s))

  module _ (ctx : EvalContext float) where
    pub evaluate-const :
        (fuel : ℕ) (id : NodeId) (c : ℕ)
        → 0 < fuel
        → get_elem? soa.kinds id ≡ some (NodeKind.const c)
        → evaluate_soa float ctx fuel soa id ≡ some (get_const float ctx c)
    unfolding evaluate_soa eval_node
    evaluate-const zero id c h e = absurd (omega arith)
    evaluate-const (suc fuel) id c h e = rw e

    pub evaluate-bml :
        (fuel : ℕ) (id l r : NodeId) {a b : F64}
        → HasKey float soa (bml_key l r) id
        → evaluate_soa float ctx fuel soa l ≡ some a
        → evaluate_soa float ctx fuel soa r ≡ some b
        → evaluate_soa float ctx (suc fuel) soa id ≡ some (bml_base_op float a b)
    unfolding evaluate_soa eval_node
    evaluate-bml fuel id l r (k, el, er) ea eb = rw (k, el, er) (rw (ea, eb))
