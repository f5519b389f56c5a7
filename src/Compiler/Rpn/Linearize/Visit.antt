-- ===== src/Compiler/Rpn/Linearize/Visit.antt =====
-- The loop of `linearize` of crates/compiler/src/rpn.rs visits a node and what it needs, and then goes on.
use bml.Prelude.{
  ℕ, zero, suc, ◌^◌, ◌≤◌, ◌<◌, ◌≡◌, ◌≢◌, refl, ◌∙◌, true, false, Option, none, some, List, ◌∷◌,
  arith, ltb, get_elem?,
}
use bml.Float.{Float}
use bml.Domain.Ast.{NodeId, NodeKind, EvalContext}
use bml.Domain.Soa.{NodeSoa, len}
use bml.Domain.Soa.Eval.{IsWellFormed, get_elem?-some}
use bml.Compiler.Rpn.Linearize.{Work, both_of, Pending, expand, emit, visit_kind, visit}
use bml.Compiler.Rpn.Linearize.Placed.{Good}
use bml.Compiler.Rpn.Linearize.Turns.{Turns, Turns-one, Turns-trans, NodeKind-Leaf}
use bml.Compiler.Rpn.Linearize.Place.{Visited, place, operator-Visited, present-Visited}

module _ (float : Float) (ctx : EvalContext float) (soa : NodeSoa float) where
  open float use {F64}

  ltb-true : (a b : ℕ) → a < b → ltb a b ≡ true
  ltb-true a b lt = ground arith

  -- The first turn of an operator.
  expand-turn :
      (id l r : NodeId) (pending : Pending) (work : Work)
      → get_elem? work.slots id ≡ some none
      → get_elem? soa.kinds id ≡ some NodeKind.bml_op
      → get_elem? soa.lefts id ≡ some l
      → get_elem? soa.rights id ≡ some r
      → l < id
      → r < id
      → Turns float ctx soa
          ((id, false) ∷ pending)
          work
          ((l, false) ∷ (r, false) ∷ (id, true) ∷ pending)
          work
  unfolding visit visit_kind expand both_of
  expand-turn id l r pending work empty k el er ll lr =
      Turns-one float ctx soa
        (rw (empty, k, visit) (rw (el, er, expand) (rw (ltb-true l id ll, ltb-true r id lr) refl)))

  leaf-Visited :
      (id : NodeId) (kind : NodeKind) (pending : Pending) (work : Work) (stack : List F64)
      → Good float ctx soa work stack
      → get_elem? work.slots id ≡ some none
      → get_elem? soa.kinds id ≡ some kind
      → kind ≢ NodeKind.bml_op
      → Visited float ctx soa id false pending work
  unfolding visit_kind
  leaf-Visited id kind pending work stack good empty k ne =
      let leaf = NodeKind-Leaf float ctx soa work stack id kind k ne in
      place float ctx soa id false kind pending work stack leaf.value leaf.code good empty k
        (not_operator kind ne) (leaf.emits _ _) leaf.has_value leaf.leaves leaf.uncounted
    where
      not_operator :
          (k : NodeKind)
          → k ≢ NodeKind.bml_op
          → visit_kind float soa id false k pending work ≡ emit float soa id k pending work
      not_operator NodeKind.one ne = refl
      not_operator NodeKind.zero ne = refl
      not_operator (NodeKind.var v) ne = refl
      not_operator (NodeKind.const c) ne = refl
      not_operator NodeKind.bml_op ne = absurd (ne refl)

  -- After both operands, the operator.
  join-Visited :
      (id l r : NodeId) (pending : Pending) (work : Work)
      → len float soa ≤ 2 ^ 32
      → get_elem? work.slots id ≡ some none
      → get_elem? soa.kinds id ≡ some NodeKind.bml_op
      → get_elem? soa.lefts id ≡ some l
      → get_elem? soa.rights id ≡ some r
      → l < id
      → r < id
      → ((stack : List F64) (work' : Work) (pending' : Pending)
          → Good float ctx soa work' stack
          → Visited float ctx soa l false pending' work')
      → ((stack : List F64) (work' : Work) (pending' : Pending)
          → Good float ctx soa work' stack
          → Visited float ctx soa r false pending' work')
      → (stack : List F64) → Good float ctx soa work stack
      → Visited float ctx soa id false pending work
  join-Visited id l r pending work small empty k el er ll lr visit_l visit_r stack good =
      let x = visit_l stack work ((r, false) ∷ (id, true) ∷ pending) good in
      let y = visit_r x.stack x.left ((id, true) ∷ pending) x.good in
      let empty' : get_elem? y.left.slots id ≡ some none =
        y.untouched id lr ∙ x.untouched id ll ∙ empty in
      let z =
        operator-Visited float ctx soa id l r pending y.left y.stack x.at y.at small y.good empty' k
          el er ll lr (y.kept l x.at x.position) y.position in
      record {
        left = z.left;
        stack = z.stack;
        turns =
            Turns-trans float ctx soa (expand-turn id l r pending work empty k el er ll lr)
              (Turns-trans float ctx soa x.turns (Turns-trans float ctx soa y.turns z.turns));
        good = z.good;
        kept = λ j h s. z.kept j h (y.kept j h (x.kept j h s));
        untouched = λ j lt.
            z.untouched j lt
            ∙ y.untouched j (omega (arith, lt, lr))
            ∙ x.untouched j (omega (arith, lt, ll));
        at = z.at;
        position = z.position;
        on_top = λ free. z.on_top empty';
      }

  module _ (well : IsWellFormed float soa) (small : len float soa ≤ 2 ^ 32) where
    -- Every node among the columns is visited.
    pub visit-Visited :
        (n id : NodeId) (pending : Pending) (work : Work) (stack : List F64)
        → id < n
        → id < len float soa
        → Good float ctx soa work stack
        → Visited float ctx soa id false pending work
    visit-Visited zero id pending work stack lt among good = absurd (omega (arith, lt))
    visit-Visited (suc n) id pending work stack lt among good =
        by_slot (get_elem?-some work.slots id (omega (arith, among, good.slots_length)))
          (get_elem?-some soa.kinds id among)
          (λ i p w s l. visit-Visited n i p w s (omega (arith, lt, l)) (omega (arith, among, l)))
      where
        by_kind :
            get_elem? work.slots id ≡ some none
            → (kind : NodeKind) × (get_elem? soa.kinds id ≡ some kind)
            → ((i : NodeId) (p : Pending) (w : Work) (s : List F64)
                → i < id
                → Good float ctx soa w s
                → Visited float ctx soa i false p w)
            → Visited float ctx soa id false pending work
        by_kind empty (NodeKind.bml_op, k) ih =
            let (l, r, el, er, ll, lr) = well.operands id k in
            join-Visited id l r pending work small empty k el er ll lr (λ s w p g. ih l p w s ll g)
              (λ s w p g. ih r p w s lr g) stack good
        by_kind empty (NodeKind.one, k) ih =
            leaf-Visited id NodeKind.one pending work stack good empty k (λ e. cc)
        by_kind empty (NodeKind.zero, k) ih =
            leaf-Visited id NodeKind.zero pending work stack good empty k (λ e. cc)
        by_kind empty (NodeKind.var v, k) ih =
            leaf-Visited id (NodeKind.var v) pending work stack good empty k (λ e. cc)
        by_kind empty (NodeKind.const c, k) ih =
            leaf-Visited id (NodeKind.const c) pending work stack good empty k (λ e. cc)

        by_slot :
            (slot : Option ℕ) × (get_elem? work.slots id ≡ some slot)
            → (kind : NodeKind) × (get_elem? soa.kinds id ≡ some kind)
            → ((i : NodeId) (p : Pending) (w : Work) (s : List F64)
                → i < id
                → Good float ctx soa w s
                → Visited float ctx soa i false p w)
            → Visited float ctx soa id false pending work
        by_slot (some h, e) kind ih =
            present-Visited float ctx soa id h false pending work stack good e
        by_slot (none, e) kind ih = by_kind e kind ih
