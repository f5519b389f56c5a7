-- ===== src/Domain/Transformer/Values/Primitives.antt =====
-- The primitives of crates/domain/src/transformer.rs make nodes of the values that they name.
use bml.Prelude.{
  ℕ, zero, suc, ◌^◌, ◌≤◌, max, ◌≡◌, refl, sym, ap, ◌∙◌, none, some, List, [], ◌∷◌, ◌++◌, arith,
  length, get_elem?, get_or, get_elem?-append_end,
}
use bml.Float.{Float}
use bml.Domain.Ast.{NodeId, NodeKind, Node, get_var, get_const}
use bml.Domain.Operator.{bml_base_op}
use bml.Domain.Soa.{NodeSoa, as_u32, len, push, push_one, push_var, push_const, push_bml}
use bml.Domain.Soa.Eval.{evaluate_soa, eval_node, Extends, evaluate_soa-Extends, get_elem?-lt}
use bml.Domain.Soa.Push.{push_kind}
use bml.Domain.Transformer.{perform, append_constant, run}
use bml.Domain.Transformer.Kept.{Begins}
use bml.Domain.Transformer.Values.{at_end, Holds, Makes}
use bml.Domain.Transformer.Arithmetic as Arithmetic

module _ (float : Float) (inputs : List (float.F64)) (end : NodeSoa float) where
  open float use {F64}

  Extends-refl : Extends float end end (at_end float inputs end) (at_end float inputs end)
  Extends-refl = record {
    kinds_kept = λ i k h. h;
    lefts_kept = λ i k h. h;
    rights_kept = λ i k h. h;
    inputs_kept = λ v. refl;
    weights_kept = λ i c h. refl;
  }

  more_fuel :
      (fuel more : ℕ) (id : NodeId) {v : F64}
      → fuel ≤ more
      → evaluate_soa float (at_end float inputs end) fuel end id ≡ some v
      → evaluate_soa float (at_end float inputs end) more end id ≡ some v
  more_fuel fuel more id le h =
      evaluate_soa-Extends float fuel more end end (at_end float inputs end)
        (at_end float inputs end) id Extends-refl le h

  -- The value of an operator node from those of its operands.
  bml-Holds :
      (id l r : NodeId) {a b : F64}
      → get_elem? end.kinds id ≡ some NodeKind.bml_op
      → get_elem? end.lefts id ≡ some l
      → get_elem? end.rights id ≡ some r
      → Holds float inputs end l a
      → Holds float inputs end r b
      → Holds float inputs end id (bml_base_op float a b)
  unfolding evaluate_soa eval_node
  bml-Holds id l r k el er p q =
      let x = more_fuel p.fuel (max p.fuel q.fuel) l (omega arith) p.value in
      let y = more_fuel q.fuel (max p.fuel q.fuel) r (omega arith) q.value in
      record { fuel = suc (max p.fuel q.fuel); value = rw (k, el, er) (rw (x, y) refl) }

  leaf-Holds :
      (id : NodeId) (k : NodeKind) (v : F64)
      → get_elem? end.kinds id ≡ some k
      → eval_node float (at_end float inputs end) (λ i. none) (some k) none none ≡ some v
      → Holds float inputs end id v
  unfolding evaluate_soa eval_node
  leaf-Holds id NodeKind.one v k e = record { fuel = 1; value = rw k e }
  leaf-Holds id NodeKind.zero v k e = record { fuel = 1; value = rw k e }
  leaf-Holds id (NodeKind.var n) v k e = record { fuel = 1; value = rw k e }
  leaf-Holds id (NodeKind.const c) v k e = record { fuel = 1; value = rw k e }
  leaf-Holds id NodeKind.bml_op v k e = cc

  module _ (small : len float end ≤ 2 ^ 32) where
    -- The identifier of a pushed node is its index.
    pushed_kind :
        (soa : NodeSoa float) (node : Node)
        → Begins float (push float soa node) end
        → (as_u32 (len float soa) ≡ len float soa)
          × (get_elem? end.kinds (as_u32 (len float soa)) ≡ some node.kind)
    pushed_kind soa node g =
        let k = g.kinds_kept (len float soa) node.kind (push_kind float soa node) in
        let e : as_u32 (len float soa) ≡ len float soa =
          omega (arith, get_elem?-lt end.kinds (len float soa) k) in
        (e, ap (get_elem? end.kinds) e ∙ k)

    pub one-Makes :
        Makes float inputs end Arithmetic.one (λ id. Holds float inputs end id float.one)
    unfolding Arithmetic.one run perform push_one
    one-Makes = record {
      made =
          λ soa b g. leaf-Holds _ NodeKind.one _ (pushed_kind soa _ g).1 (unfold eval_node in refl);
    }

    pub var-Makes :
        (v : ℕ)
        → Makes float inputs end
            (Arithmetic.var v)
            (λ id. Holds float inputs end id (get_or inputs v float.nan))
    unfolding Arithmetic.var run perform push_var
    var-Makes v = record {
      made = λ soa b g.
          leaf-Holds _ (NodeKind.var v) _ (pushed_kind soa _ g).1
            (unfold eval_node get_var in refl);
    }

    pub apply-Makes :
        {l r : NodeId} {a b : F64}
        → Holds float inputs end l a
        → Holds float inputs end r b
        → Makes float inputs end
            (Arithmetic.apply l r)
            (λ id. Holds float inputs end id (bml_base_op float a b))
    unfolding Arithmetic.apply run perform push_bml
    apply-Makes {l} {r} ha hb = record {
      made = λ soa b g.
          let (e, k) = pushed_kind soa _ g in
          bml-Holds _ l r k
            (ap (get_elem? end.lefts) e
              ∙ g.lefts_kept (len float soa) l
                  (unfold push in last_of soa.lefts l (len float soa) b.lefts_length))
            (ap (get_elem? end.rights) e
              ∙ g.rights_kept (len float soa) r
                  (unfold push in last_of soa.rights r (len float soa) b.rights_length))
            ha hb;
    }
      where
        last_of : (xs : List ℕ) (x n : ℕ) → length xs ≡ n → get_elem? (xs ++ x ∷ []) n ≡ some x
        last_of xs x n e = ap (get_elem? (xs ++ x ∷ [])) (sym e) ∙ get_elem?-append_end xs x

    pub constant-Makes :
        (x : F64)
        → length end.const_pool ≤ 2 ^ 32
        → Makes float inputs end (Arithmetic.constant x) (λ id. Holds float inputs end id x)
    unfolding Arithmetic.constant run perform push_const append_constant
    constant-Makes x fits = record {
      made = λ soa b g.
          let n = length soa.const_pool in
          let p = g.pool_kept n x (unfold push in get_elem?-append_end soa.const_pool x) in
          let e : as_u32 n ≡ n = omega (arith, get_elem?-lt end.const_pool n p) in
          leaf-Holds _ (NodeKind.const (as_u32 n)) x
            (pushed_kind (append_constant float x soa) _ g).1
            (unfold eval_node get_const in
              ap some
                (ap (λ i. get_or end.const_pool i float.nan) e ∙ get_or_of end.const_pool n p));
    }
      where
        get_or_of :
            (xs : List F64) (i : ℕ) {a : F64} → get_elem? xs i ≡ some a → get_or xs i float.nan ≡ a
        get_or_of [] i h = cc
        get_or_of (y ∷ xs) zero h = cc
        get_or_of (y ∷ xs) (suc i) h = get_or_of xs i h
