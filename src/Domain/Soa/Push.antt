-- ===== src/Domain/Soa/Push.antt =====
-- The columns of crates/domain/src/soa.rs after `NodeSoA::push`.
use bml.Prelude.{
  ℕ, zero, suc, ◌+◌, ◌<◌, ◌≡◌, refl, sym, ap, ◌∙◌, some, List, [], ◌∷◌, ◌++◌, ◌⊎◌, inl, inr, arith,
  length, get_elem?, length-append, get_elem?-append_end,
}
use bml.Float.{Float}
use bml.Domain.Ast.{NodeId, NodeKind, Node, EvalContext, get_var, get_const}
use bml.Domain.Soa.{NodeSoa, push, len, or_zero}
use bml.Domain.Soa.Eval.{IsWellFormed, Extends, get_elem?-append_some}

-- An element of a list with one more at the end.
pub get_elem?-snoc {ℓ} :
    {A : Type ℓ} (xs : List A) (a : A) (i : ℕ) {b : A}
    → get_elem? (xs ++ a ∷ []) i ≡ some b
    → (get_elem? xs i ≡ some b) ⊎ ((i ≡ length xs) × (a ≡ b))
get_elem?-snoc [] a zero h = inr (refl, cc)
get_elem?-snoc [] a (suc i) h = cc
get_elem?-snoc (x ∷ xs) a zero h = inl h
get_elem?-snoc (x ∷ xs) a (suc i) h = elim (get_elem?-snoc xs a i h) [
  | inl e ↦ inl e
  | inr (e, q) ↦ inr (omega arith, q)
]

length-snoc {ℓ} : {A : Type ℓ} (xs : List A) (a : A) → length (xs ++ a ∷ []) ≡ length xs + 1
length-snoc xs a = omega (arith, length-append {_} xs (a ∷ []))

module _ (float : Float) (soa : NodeSoa float) (node : Node) where
  -- The new node stands at the end.
  pub push_kind : get_elem? (push float soa node).kinds (len float soa) ≡ some node.kind
  unfolding push
  push_kind = get_elem?-append_end soa.kinds node.kind

  -- A kind after the push is an earlier one or the new one.
  pub kind-push :
      (i : ℕ) (k : NodeKind)
      → get_elem? (push float soa node).kinds i ≡ some k
      → (get_elem? soa.kinds i ≡ some k) ⊎ ((i ≡ len float soa) × (node.kind ≡ k))
  unfolding push
  kind-push i k h = get_elem?-snoc soa.kinds node.kind i h

  pub left-push :
      (i : ℕ) {l : NodeId}
      → get_elem? soa.lefts i ≡ some l
      → get_elem? (push float soa node).lefts i ≡ some l
  unfolding push
  left-push i h = get_elem?-append_some soa.lefts (or_zero node.left ∷ []) i h

  pub right-push :
      (i : ℕ) {r : NodeId}
      → get_elem? soa.rights i ≡ some r
      → get_elem? (push float soa node).rights i ≡ some r
  unfolding push
  right-push i h = get_elem?-append_some soa.rights (or_zero node.right ∷ []) i h

  pub pool-push : (push float soa node).const_pool ≡ soa.const_pool
  unfolding push
  pool-push = refl

  pub len-push : len float (push float soa node) ≡ len float soa + 1
  unfolding push
  len-push = length-snoc soa.kinds node.kind

  pub push-Extends :
      (ctx ctx' : EvalContext float)
      → ((v : ℕ) → get_var float ctx v ≡ get_var float ctx' v)
      → ((i c : ℕ)
          → get_elem? soa.kinds i ≡ some (NodeKind.const c)
          → get_const float ctx c ≡ get_const float ctx' c)
      → Extends float soa (push float soa node) ctx ctx'
  unfolding push
  push-Extends ctx ctx' inputs weights = record {
    kinds_kept = λ i k. get_elem?-append_some soa.kinds (node.kind ∷ []) i;
    lefts_kept = λ i k. get_elem?-append_some soa.lefts (or_zero node.left ∷ []) i;
    rights_kept = λ i k. get_elem?-append_some soa.rights (or_zero node.right ∷ []) i;
    inputs_kept = inputs;
    weights_kept = weights;
  }

  module _ (w : IsWellFormed float soa) where
    pub push_left : get_elem? (push float soa node).lefts (len float soa) ≡ some (or_zero node.left)
    unfolding push
    push_left =
        ap (get_elem? (soa.lefts ++ or_zero node.left ∷ [])) (sym w.lefts_length)
        ∙ get_elem?-append_end soa.lefts (or_zero node.left)

    pub push_right :
        get_elem? (push float soa node).rights (len float soa) ≡ some (or_zero node.right)
    unfolding push
    push_right =
        ap (get_elem? (soa.rights ++ or_zero node.right ∷ [])) (sym w.rights_length)
        ∙ get_elem?-append_end soa.rights (or_zero node.right)

    -- Pushing a node onto well-formed columns, whose operands stand among them if it is an operator,
    -- leaves them well formed: of equal lengths, with the operands of each operator before it.
    pub push-IsWellFormed :
        (node.kind ≡ NodeKind.bml_op
          → (or_zero node.left < len float soa) × (or_zero node.right < len float soa))
        → IsWellFormed float (push float soa node)
    push-IsWellFormed before = record {
      lefts_length =
          unfold push in
          length-snoc soa.lefts _
          ∙ ap (λ n. n + 1) w.lefts_length
          ∙ sym (length-snoc soa.kinds node.kind);
      rights_length =
          unfold push in
          length-snoc soa.rights _
          ∙ ap (λ n. n + 1) w.rights_length
          ∙ sym (length-snoc soa.kinds node.kind);
      values_length =
          unfold push in
          length-snoc soa.values _
          ∙ ap (λ n. n + 1) w.values_length
          ∙ sym (length-snoc soa.kinds node.kind);
      operands = λ id h. found id (get_elem?-snoc soa.kinds node.kind id (unfold push in h));
    }
      where
        found :
            (id : NodeId)
            → (get_elem? soa.kinds id ≡ some NodeKind.bml_op)
              ⊎ ((id ≡ length soa.kinds) × (node.kind ≡ NodeKind.bml_op))
            → (l : NodeId) × (r : NodeId) × (get_elem? (push float soa node).lefts id ≡ some l)
              × (get_elem? (push float soa node).rights id ≡ some r)
              × (l < id)
              × (r < id)
        found id (inl e) =
            let (l, r, el, er, hl, hr) = w.operands id e in
            (
              l,
              r,
              unfold push in get_elem?-append_some soa.lefts _ id el,
              unfold push in get_elem?-append_some soa.rights _ id er,
              hl,
              hr,
            )
        found id (inr (e, q)) = (
          or_zero node.left,
          or_zero node.right,
          ap (get_elem? (push float soa node).lefts) e ∙ push_left,
          ap (get_elem? (push float soa node).rights) e ∙ push_right,
          omega (arith, (before q).0),
          omega (arith, (before q).1),
        )
