-- ===== src/Compiler/HashCons/Fold.antt =====
-- The method `bml` of the registry of crates/compiler/src/hash_cons.rs, folding included.
use bml.Prelude.{
  ℕ, zero, suc, ◌+◌, ◌-◌, ◌^◌, ◌<◌, ◌≡◌, refl, sym, ap, ap₂, ◌∙◌, subst, Option, none, some, List,
  inl, inr, arith, Bool-cases, length, get_elem?,
}
use bml.Float.{Float}
use bml.Domain.Ast.{both, NodeId, NodeKind}
use bml.Domain.Soa.{len, push_bml}
use bml.Domain.Soa.Eval.{
  evaluate_soa_total, get_elem?-lt, evaluate_soa, evaluate_soa-Extends, eval_node,
}
use bml.Compiler.HashCons.{
  Step, bml_key, Registry, bml_plain, bml_node, bml_folded, const_of, eval_const_node,
}
use bml.Compiler.HashCons.Valid.{HasKey, IsValid, context, Grows}
use bml.Compiler.HashCons.Keys.{some_eq, Extends-refl}
use bml.Compiler.HashCons.Intern.{intern_lem}
use bml.Compiler.HashCons.Lookup.{get-kind, get_total, evaluate-bml}
use bml.Compiler.HashCons.Value.{value, Loads-value, const_value-Loads}
use bml.Domain.Operator.{bml_base_op}

module _ (float : Float) (inputs : List (float.F64)) where
  open float use {F64}

  evaluate-one :
      (reg : Registry float) (fuel : ℕ) (id : NodeId)
      → 0 < fuel
      → get_elem? reg.soa.kinds id ≡ some NodeKind.one
      → evaluate_soa float (context float inputs reg.soa) fuel reg.soa id ≡ some float.one
  unfolding evaluate_soa eval_node
  evaluate-one reg zero id h e = absurd (omega arith)
  evaluate-one reg (suc fuel) id h e = rw e

  evaluate-zero :
      (reg : Registry float) (fuel : ℕ) (id : NodeId)
      → 0 < fuel
      → get_elem? reg.soa.kinds id ≡ some NodeKind.zero
      → evaluate_soa float (context float inputs reg.soa) fuel reg.soa id ≡ some float.zero
  unfolding evaluate_soa eval_node
  evaluate-zero reg zero id h e = absurd (omega arith)
  evaluate-zero reg (suc fuel) id h e = rw e

  -- A node that folds has the value that it folds to.
  const_of-value :
      (reg : Registry float) (id : NodeId) (k : NodeKind) {x : F64}
      → get_elem? reg.soa.kinds id ≡ some k
      → const_of float reg k ≡ some x
      → value float inputs reg id ≡ some x
  unfolding const_of
  const_of-value reg id NodeKind.one e h =
      evaluate-one reg (len float reg.soa) id (omega (arith, get_elem?-lt reg.soa.kinds id e)) e ∙ h
  const_of-value reg id NodeKind.zero e h =
      evaluate-zero reg (len float reg.soa) id (omega (arith, get_elem?-lt reg.soa.kinds id e)) e
      ∙ h
  const_of-value reg id (NodeKind.const c) e h = Loads-value float inputs reg id (c, e, h)
  const_of-value reg id (NodeKind.var v) e h = cc
  const_of-value reg id NodeKind.bml_op e h = cc

  module _ (reg : Registry float) where
    -- An operand keeps its value in a registry that grew.
    operand-value :
        (reg' : Registry float) (id : NodeId) (m : ℕ) (k : NodeId) {a : F64}
        → Grows float inputs reg reg' id
        → k < m
        → m < len float reg'.soa
        → value float inputs reg k ≡ some a
        → evaluate_soa float (context float inputs reg'.soa) m reg'.soa k ≡ some a
    operand-value reg' id m k {a} g h lt e =
        let ctx' = context float inputs reg'.soa in
        let far = len float reg.soa + m in
        let (b, eb) = evaluate_soa_total float ctx' m reg'.soa k g.valid.well (omega arith) h in
        let here : evaluate_soa float ctx' far reg'.soa k ≡ some b =
          evaluate_soa-Extends float m far reg'.soa reg'.soa ctx' ctx' k
            (Extends-refl float reg'.soa ctx') (omega arith) eb in
        let there : evaluate_soa float ctx' far reg'.soa k ≡ some a =
          evaluate_soa-Extends float (len float reg.soa) far reg.soa reg'.soa
            (context float inputs reg.soa) ctx' k g.kept (omega arith) e in
        eb ∙ sym here ∙ there

    -- The new node of an interned operator has the operator's value.
    HasKey-value :
        (reg' : Registry float) (id l r : NodeId) (m : ℕ) {a b : F64}
        → Grows float inputs reg reg' id
        → HasKey float reg'.soa (bml_key l r) id
        → suc m ≡ len float reg'.soa
        → value float inputs reg l ≡ some a
        → value float inputs reg r ≡ some b
        → value float inputs reg' id ≡ some (bml_base_op float a b)
    HasKey-value reg' id l r m {a} {b} g k e ea eb =
        let (l', r', el, er, ll, lr) = g.valid.well.operands id k.0 in
        let inside = g.inside in
        let same_l : l' ≡ l = some_eq (sym el ∙ k.1) in
        let same_r : r' ≡ r = some_eq (sym er ∙ k.2) in
        let done =
          evaluate-bml float reg'.soa (context float inputs reg'.soa) m id l r k
            (operand-value reg' id m l g (omega arith) (omega arith) ea)
            (operand-value reg' id m r g (omega arith) (omega arith) eb) in
        subst
          (λ n.
            evaluate_soa float (context float inputs reg'.soa) n reg'.soa id
            ≡ some (bml_base_op float a b))
          e done

    abbrev ResultOf : Step float → F64 → Type 0
    ResultOf step x =
        (id : NodeId) × (reg' : Registry float) × (step ≡ some (id, reg'))
        × Grows float inputs reg reg' id
        × (value float inputs reg' id ≡ some x)

    module _ (v : IsValid float reg) (l r : NodeId) (in_l : l < len float reg.soa)
        (in_r : r < len float reg.soa) (small : len float reg.soa < 2 ^ 32)
        (fits : length reg.soa.const_pool < 2 ^ 32) where
      plain-value :
          {a b : F64}
          → value float inputs reg l ≡ some a
          → value float inputs reg r ≡ some b
          → ResultOf (some (bml_plain float reg l r)) (bml_base_op float a b)
      unfolding bml_plain push_bml
      plain-value ea eb =
          let (g, k) = intern_lem float inputs reg v (bml_key l r) small (in_l, in_r) in
          let (id, reg') = bml_plain float reg l r in
          let inside = g.inside in
          (
            id,
            reg',
            refl,
            g,
            HasKey-value reg' id l r (len float reg'.soa - 1) g k (omega arith) ea eb,
          )

      folded-value :
          (ca cb : Option F64) {a b : F64}
          → ((x : F64) → ca ≡ some x → value float inputs reg l ≡ some x)
          → ((x : F64) → cb ≡ some x → value float inputs reg r ≡ some x)
          → value float inputs reg l ≡ some a
          → value float inputs reg r ≡ some b
          → ResultOf
              (bml_folded float reg l r (both (bml_base_op float) ca cb))
              (bml_base_op float a b)
      unfolding bml_folded
      folded-value none cb ha hb ea eb = plain-value ea eb
      folded-value (some x) none ha hb ea eb = plain-value ea eb
      folded-value (some x) (some y) {a} {b} ha hb ea eb =
          elim (Bool-cases (float.is_finite (bml_base_op float x y))) [
            | inl q ↦
                let same_a : x ≡ a = some_eq (sym (ha x refl) ∙ ea) in
                let same_b : y ≡ b = some_eq (sym (hb y refl) ∙ eb) in
                let (id, reg', e, g, k) =
                  const_value-Loads float inputs reg v (bml_base_op float x y) small fits in
                (
                  id,
                  reg',
                  rw q e,
                  g,
                  Loads-value float inputs reg' id k
                      ∙ ap some (ap₂ (bml_base_op float) same_a same_b),
                )
            | inr q ↦ let (id, reg', e, g, k) = plain-value ea eb in (id, reg', rw q e, g, k)
          ]

  -- The method `bml` on two nodes of a valid registry with fewer than `2 ^ 32` nodes and
  -- constants, whose values are `a` and `b`, does not panic: it returns a node whose value is
  -- the operator's on `a` and `b`, folded or not; the registry stays valid and every earlier node
  -- keeps its kind, operands and value.
  pub bml_node-value :
      (reg : Registry float) (l r : NodeId) {a b : F64}
      → IsValid float reg
      → l < len float reg.soa
      → r < len float reg.soa
      → len float reg.soa < 2 ^ 32
      → length reg.soa.const_pool < 2 ^ 32
      → value float inputs reg l ≡ some a
      → value float inputs reg r ≡ some b
      → (id : NodeId) × (reg' : Registry float) × (bml_node float reg l r ≡ some (id, reg'))
        × Grows float inputs reg reg' id
        × (value float inputs reg' id ≡ some (bml_base_op float a b))
  unfolding bml_node eval_const_node
  bml_node-value reg l r v in_l in_r small fits ea eb =
      let (n, en) = get_total float reg.soa l v.well in_l in
      let (m, em) = get_total float reg.soa r v.well in_r in
      let (id, reg', e, g, k) =
        folded-value reg v l r in_l in_r small fits (const_of float reg n.kind)
          (const_of float reg m.kind)
          (λ x h. const_of-value reg l n.kind (get-kind float reg.soa l en) h)
          (λ x h. const_of-value reg r m.kind (get-kind float reg.soa r em) h) ea eb in
      (id, reg', rw (en, em) e, g, k)
