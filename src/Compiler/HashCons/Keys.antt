-- ===== src/Compiler/HashCons/Keys.antt =====
-- The keys of the nodes of crates/compiler/src/hash_cons.rs across a push.
use bml.Prelude.{ℕ, ◌≡◌, refl, sym, ap, ◌∙◌, some, ◌⊎◌, inl, inr, get_elem?}
use bml.Float.{Float}
use bml.Domain.Ast.{NodeId, NodeKind, Node, EvalContext}
use bml.Domain.Soa.{NodeSoa, len, push}
use bml.Domain.Soa.Eval.{IsWellFormed, Extends, get_elem?-append_some}
use bml.Domain.Soa.Push.{kind-push, left-push, right-push, push_kind, push_left, push_right}
use bml.Compiler.HashCons.{ConsKey, one_key, zero_key, bml_key}
use bml.Compiler.HashCons.Valid.{key_node, HasKey, HasConst}

pub some_eq {ℓ} : {A : Type ℓ} {a b : A} → some a ≡ some b → a ≡ b
some_eq h = cc

module _ (float : Float) where
  open float use {F64}

  pub Extends-refl : (soa : NodeSoa float) (ctx : EvalContext float) → Extends float soa soa ctx ctx
  Extends-refl soa ctx = record {
    kinds_kept = λ i k h. h;
    lefts_kept = λ i k h. h;
    rights_kept = λ i k h. h;
    inputs_kept = λ v. refl;
    weights_kept = λ i c h. refl;
  }

  -- The key of a pushed node.
  pub HasKey-push :
      (soa : NodeSoa float) (k : ConsKey) (n : NodeId)
      → IsWellFormed float soa
      → HasKey float (push float soa (key_node k n)) k (len float soa)
  HasKey-push soa one_key n w = push_kind float soa (key_node one_key n)
  HasKey-push soa zero_key n w = push_kind float soa (key_node zero_key n)
  HasKey-push soa (bml_key l r) n w = (
    push_kind float soa (key_node (bml_key l r) n),
    push_left float soa (key_node (bml_key l r) n) w,
    push_right float soa (key_node (bml_key l r) n) w,
  )

  -- A node with a key stood there before the push, or is the one pushed.
  pub HasKey-pushed :
      (soa : NodeSoa float) (node : Node) (k : ConsKey) (id : NodeId)
      → IsWellFormed float soa
      → HasKey float (push float soa node) k id
      → (HasKey float soa k id)
        ⊎ ((id ≡ len float soa) × HasKey float (push float soa node) k (len float soa))
  HasKey-pushed soa node one_key id w h = elim (kind-push float soa node id NodeKind.one h) [
    | inl e ↦ inl e
    | inr (e, q) ↦ inr (e, push_kind float soa node ∙ ap some q)
  ]
  HasKey-pushed soa node zero_key id w h = elim (kind-push float soa node id NodeKind.zero h) [
    | inl e ↦ inl e
    | inr (e, q) ↦ inr (e, push_kind float soa node ∙ ap some q)
  ]
  HasKey-pushed soa node (bml_key l r) id w (hk, hl, hr) =
      elim (kind-push float soa node id NodeKind.bml_op hk) [
        | inl e ↦
            let (l', r', el, er, _, _) = w.operands id e in
            inl (
              e,
              el ∙ sym (left-push float soa node id el) ∙ hl,
              er ∙ sym (right-push float soa node id er) ∙ hr,
            )
        | inr (e, q) ↦ inr (
          e,
          (
            push_kind float soa node ∙ ap some q,
            ap (get_elem? (push float soa node).lefts) (sym e) ∙ hl,
            ap (get_elem? (push float soa node).rights) (sym e) ∙ hr,
          ),
        )
      ]

  -- A node has one key.
  pub HasKey-key :
      (soa : NodeSoa float) (j k : ConsKey) (id : NodeId)
      → HasKey float soa j id
      → HasKey float soa k id
      → j ≡ k
  HasKey-key soa one_key one_key id h g = refl
  HasKey-key soa one_key zero_key id h g = cc
  HasKey-key soa one_key (bml_key l r) id h g = let a = g.0 in cc
  HasKey-key soa zero_key one_key id h g = cc
  HasKey-key soa zero_key zero_key id h g = refl
  HasKey-key soa zero_key (bml_key l r) id h g = let a = g.0 in cc
  HasKey-key soa (bml_key l r) one_key id h g = let a = h.0 in cc
  HasKey-key soa (bml_key l r) zero_key id h g = let a = h.0 in cc
  HasKey-key soa (bml_key l r) (bml_key l' r') id h g =
      let a = h.1 in let b = h.2 in let c = g.1 in let d = g.2 in cc

  pub HasConst-push :
      (soa : NodeSoa float) (node : Node) (b c : ℕ)
      → HasConst float soa b c
      → HasConst float (push float soa node) b c
  HasConst-push soa node b c (v, i, e, q, k) =
      (v, i, unfold push in e, q, unfold push in get_elem?-append_some soa.kinds _ i k)
